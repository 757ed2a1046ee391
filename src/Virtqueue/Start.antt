-- ===== src/Virtqueue/Start.antt =====
-- The session that begins when each side has created its queue.
use native.Mathlib.Nat.{one-le-pow}
use v85x_openamp.Base.{ℕ, ◌^◌, ◌<◌, ◌≡◌, refl, ◌∙◌, [], arith, Bool, false}
use v85x_openamp.Base.Bits.{bit_and-pred_power}
use v85x_openamp.Base.Window.{window, distance}
use v85x_openamp.Virtqueue.State.{Env, Vring, Virtqueue, success, driver, device, u16}
use v85x_openamp.Virtqueue.Ring.{vq_ring_init}
use v85x_openamp.Virtqueue.Driver.{virtqueue_create}
use v85x_openamp.Virtqueue.Create.{IsZeroed, upto, virtqueue_create-Owns}
use v85x_openamp.Virtqueue.Transfer.{Session}
use v85x_openamp.Virtqueue.View.{Transfers}

empty_window {ℓ} :
    {A : Type ℓ} (n : ℕ) (f : ℕ → A) (a b : ℕ)
    → a ≡ 0
    → b ≡ 0
    → window n f b (distance u16 a b) ≡ []
empty_window n f a b ha hb = rw (ha, hb) refl

-- On the device side creation leaves the ring alone.
create_device :
    (env : Env) (event_idx : Bool) (id k : ℕ) (callback notify : Bool) (vq : Virtqueue) (vr : Vring)
    → IsZeroed vq
    → vr.num ≡ 2 ^ k
    → (vq' : Virtqueue) × (virtqueue_create env device event_idx id
          (record { num_descs = 2 ^ k })
          callback
          notify
          vq
          vr
        ≡ (success, vq', vr))
      × (vq'.vq_nentries ≡ 2 ^ k)
      × (vq'.vq_inuse ≡ false)
      × (vq'.vq_available_idx ≡ 0)
unfolding virtqueue_create vq_ring_init
create_device env event_idx id k callback notify vq vr z num = (
  record vq {
    role = device;
    event_idx = event_idx;
    vq_queue_index = id;
    vq_nentries = 2 ^ k;
    vq_free_cnt = 2 ^ k;
    has_callback = callback;
    has_notify = notify;
  },
  ground (arith, one-le-pow k 2, bit_and-pred_power k, num),
  refl,
  z.inuse,
  z.available_idx,
)

-- Where both sides create a queue of `2 ^ k` descriptors, at most `2 ^ 15`, on zeroed memory, both
-- calls succeed, and a session begins in which all descriptors are free and nothing is under way.
pub created-Transfers :
    (env : Env) (event_idx callback notify callback' notify' : Bool) (id k : ℕ) (vq dvq : Virtqueue)
    (vr : Vring)
    → k < 16
    → IsZeroed vq
    → IsZeroed dvq
    → vr.avail_idx ≡ 0
    → vr.used_idx ≡ 0
    → (s : Session) × (virtqueue_create env driver event_idx id
          (record { num_descs = 2 ^ k })
          callback
          notify
          vq
          vr
        ≡ (success, s.driver_vq, s.ring))
      × (virtqueue_create env device event_idx id
            (record { num_descs = 2 ^ k })
            callback'
            notify'
            dvq
            s.ring
          ≡ (success, s.device_vq, s.ring))
      × Transfers k s (record { free = upto 0 (2 ^ k); offered = []; held = []; used = [] })
created-Transfers env event_idx callback notify callback' notify' id k vq dvq vr width z dz avail
      used =
    let (vq', vr', call, owns, cons, avail', used', num') =
      virtqueue_create-Owns env event_idx id k callback notify vq vr width z in
    let (dvq', dcall, entries, idle, accepted) =
      create_device env event_idx id k callback' notify' dvq vr' dz num' in
    (
      record { driver_vq = vq'; device_vq = dvq'; ring = vr' },
      call,
      dcall,
      record {
        owns = owns;
        entries = entries;
        idle = idle;
        avail_u16 = omega (arith, avail', avail);
        accept_u16 = omega (arith, accepted);
        used_u16 = omega (arith, used', used);
        cons_u16 = omega (arith, cons);
        offered =
            empty_window (2 ^ k) vr'.avail_ring vr'.avail_idx dvq'.vq_available_idx (avail' ∙ avail)
              accepted;
        used =
            empty_window (2 ^ k) vr'.used_ring vr'.used_idx vq'.vq_used_cons_idx (used' ∙ used)
              cons;
      },
    )
