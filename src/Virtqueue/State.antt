-- ===== src/Virtqueue/State.antt =====
-- The state of a virtqueue: the rings in shared memory, and what each side keeps for itself
-- (include/openamp/virtio_ring.h, include/openamp/virtqueue.h).
use v85x_openamp.Base.{
  ℕ, ◌^◌, Bool, true, false, not, ◌&&◌, ◌||◌, Option, ◌≡◌, arith, if◌then◌else◌,
}

-- A call returns, stops in `metal_assert`, or is still walking a chain when its fuel is spent.
pub data Run {ℓ} (A : Type ℓ) : Type ℓ where
  ok : A → Run A
  assert_failed : Run A
  out_of_fuel : Run A

infixl 5 ◌>>=◌ ◌>>◌
abbrev pub ◌>>=◌ {ℓ κ} : {A : Type ℓ} {B : Type κ} → Run A → (A → Run B) → Run B
ok a >>= f = f a
assert_failed >>= f = assert_failed
out_of_fuel >>= f = out_of_fuel

abbrev pub ◌>>◌ {ℓ} : {B : Type ℓ} → Run (Unit {0}) → Run B → Run B
m >> k = m >>= λ _. k

-- `struct vring_desc`
pub record VringDesc : Type 0 where
  pub addr : ℕ
  pub len : ℕ
  pub flags : ℕ
  pub next : ℕ

-- `struct vring_used_elem`
pub record VringUsedElem : Type 0 where
  pub id : ℕ
  pub len : ℕ

-- `struct vring` with the three tables that it points to. The event index of each side stands in
-- the slot `num` of the other's ring.
pub record Vring : Type 0 where
  pub num : ℕ
  pub desc : ℕ → VringDesc
  pub avail_flags : ℕ
  pub avail_idx : ℕ
  pub avail_ring : ℕ → ℕ
  pub used_flags : ℕ
  pub used_idx : ℕ
  pub used_ring : ℕ → VringUsedElem

-- `struct virtqueue_buf`
pub record VirtqueueBuf : Type 0 where
  pub buf : ℕ
  pub len : ℕ

-- `struct vq_desc_extra`; `none` is a `cookie` of NULL.
pub record VqDescExtra : Type 0 where
  pub cookie : Option ℕ
  pub ndescs : ℕ

-- `role` of `struct virtio_device`
pub data Role : Type 0 where
  driver device : Role

abbrev pub is_driver : Role → Bool
is_driver driver = true
is_driver device = false

abbrev pub is_device : Role → Bool
is_device driver = false
is_device device = true

-- `struct virtqueue` less its ring. `role` and `event_idx` are the role and the feature bit
-- VIRTIO_RING_F_EVENT_IDX of `vq_dev`; `has_notify` and `has_callback` tell whether the two
-- function pointers are set.
pub record Virtqueue : Type 0 where
  pub role : Role
  pub event_idx : Bool
  pub vq_queue_index : ℕ
  pub vq_nentries : ℕ
  pub has_callback : Bool
  pub has_notify : Bool
  pub vq_free_cnt : ℕ
  pub vq_queued_cnt : ℕ
  pub vq_desc_head_idx : ℕ
  pub vq_used_cons_idx : ℕ
  pub vq_available_idx : ℕ
  pub vq_inuse : Bool
  pub vq_descx : ℕ → VqDescExtra

-- The translations of the shared memory region, from libmetal, and whether the build defines
-- VQUEUE_DEBUG.
pub record Env : Type 0 where
  pub debug : Bool
  pub virt_to_phys : ℕ → ℕ
  pub phys_to_virt : ℕ → ℕ

-- The results of virtqueue.h that the code returns.
pub data Status : Type 0 where
  success no_mem vring_full vring_align vring_no_buff invld_param : Status

abbrev pub is_success : Status → Bool
is_success success = true
is_success _ = false

abbrev pub u16 : ℕ
u16 = 2 ^ 16

abbrev pub u32 : ℕ
u32 = 2 ^ 32

-- VQ_RING_DESC_CHAIN_END
abbrev pub chain_end : ℕ
chain_end = 32768

abbrev pub desc_f_next : ℕ
desc_f_next = 1

abbrev pub desc_f_write : ℕ
desc_f_write = 2

abbrev pub desc_f_indirect : ℕ
desc_f_indirect = 4

-- VQASSERT: nothing in a build without VQUEUE_DEBUG.
unfoldable pub vqassert : Env → Bool → Run (Unit {0})
vqassert env holds = if env.debug && not holds then assert_failed else ok tt

pub vqassert_holds : (env : Env) (holds : Bool) → holds ≡ true → vqassert env holds ≡ ok tt
unfolding vqassert
vqassert_holds env holds h = ground arith

-- VQ_PARAM_CHK: the first failed check decides the status.
unfoldable pub vq_param_chk : Env → Bool → Status → Status → Status
vq_param_chk env failed err status =
    if env.debug && (is_success status && failed) then err else status

-- VQUEUE_BUSY and VQUEUE_IDLE
unfoldable pub vqueue_busy : Env → Virtqueue → Run Virtqueue
unfolding vqassert
vqueue_busy env vq = do
  vqassert env (not vq.vq_inuse)
  ok (record vq { vq_inuse = env.debug || vq.vq_inuse })

unfoldable pub vqueue_idle : Env → Virtqueue → Virtqueue
vqueue_idle env vq = record vq { vq_inuse = if env.debug then false else vq.vq_inuse }
