-- ===== src/Virtqueue/Notify.antt =====
-- When a side is notified: the event index against the entries just published, the suppression of
-- notifications and their request.
use v85x_openamp.Base.{ℕ, ◌+◌, ◌%◌, ◌^◌, ◌≤◌, ◌<◌, ◌≡◌, true, false, ◌&&◌, arith, ltb}
use v85x_openamp.Base.Bits.{bit_and-bit_or_one}
use v85x_openamp.Virtqueue.State.{
  ok, Env, Vring, Virtqueue, driver, device, vqassert_holds, vqueue_busy, vqueue_idle, u16,
}
use v85x_openamp.Virtqueue.Events.{
  sub16, vring_used_event, set_vring_used_event, vring_avail_event, vring_need_event,
  suppress_event, virtqueue_disable_cb, request_event, pending, virtqueue_nused,
  vq_ring_enable_interrupt, virtqueue_enable_cb, must_notify_as, vq_ring_must_notify,
  virtqueue_kick,
}

-- `vring_need_event` asks whether the event index is one of the entries from `old` up to, and without,
-- `new_idx`; the indices are 16-bit and wrap.
pub vring_need_event_lem :
    (event_idx new_idx old : ℕ)
    → event_idx < u16
    → new_idx < u16
    → old < u16
    → vring_need_event event_idx new_idx old ≡ ltb (sub16 event_idx old) (sub16 new_idx old)
unfolding vring_need_event
vring_need_event_lem event_idx new_idx old he hn ho = ground arith

-- With event indices, a driver that published `count` entries since the last kick notifies the device
-- exactly if it has a notify function and the event index of the device is among these entries, and it
-- counts anew.
pub virtqueue_kick_driver :
    (env : Env) (vq : Virtqueue) (vr : Vring) (old count : ℕ)
    → vq.role ≡ driver
    → vq.event_idx ≡ true
    → vq.vq_inuse ≡ false
    → old < u16
    → count < u16
    → vr.avail_idx ≡ (old + count) % u16
    → vq.vq_queued_cnt ≡ count
    → virtqueue_kick env vq vr
      ≡ ok (
        ltb (sub16 (vring_avail_event vr) old) count && vq.has_notify,
        record vq { vq_queued_cnt = 0 },
      )
unfolding virtqueue_kick vq_ring_must_notify must_notify_as vring_avail_event vqueue_busy
    vqueue_idle
virtqueue_kick_driver env vq vr old count role mode idle ho hc he hq = ground (
  arith,
  role,
  mode,
  idle,
  vring_need_event_lem ((vr.used_ring vr.num).id % u16) vr.avail_idx old,
  vqassert_holds env true,
)

-- On a queue of fewer than `2 ^ 15` entries a driver disables its callback, and the device, with the
-- same feature bits, is told not to notify, as long as at most `vq_nentries` used entries are not yet
-- taken and the device has published no more of them since its last kick.
pub disable-silences :
    (env : Env) (vq dvq : Virtqueue) (vr : Vring)
    → vq.role ≡ driver
    → dvq.role ≡ device
    → dvq.event_idx ≡ vq.event_idx
    → vq.vq_inuse ≡ false
    → vq.vq_nentries < 2 ^ 15
    → vq.vq_used_cons_idx < u16
    → vr.used_idx < u16
    → sub16 vr.used_idx vq.vq_used_cons_idx ≤ vq.vq_nentries
    → dvq.vq_queued_cnt ≤ sub16 vr.used_idx vq.vq_used_cons_idx
    → (vr' : Vring) × (virtqueue_disable_cb env vq vr ≡ ok (vq, vr'))
      × (vq_ring_must_notify dvq vr' ≡ false)
unfolding virtqueue_disable_cb suppress_event set_vring_used_event vq_ring_must_notify
    must_notify_as vring_used_event vring_need_event vqueue_busy vqueue_idle
disable-silences env vq dvq vr role drole mode idle small hc hu few queued = (
  suppress_event vq vr driver,
  ground (arith, role, idle, vqassert_holds env true),
  ground (arith, role, drole, mode, bit_and-bit_or_one vr.avail_flags),
)

-- With event indices on both sides, no wake-up is lost: where a driver enables its callback and nothing
-- is pending, the call returns false, and a device that then reports `count` buffers, at least one, is
-- told to notify.
pub enable-notifies :
    (env : Env) (vq dvq : Virtqueue) (vr : Vring) (count : ℕ)
    → vq.role ≡ driver
    → dvq.role ≡ device
    → vq.event_idx ≡ true
    → dvq.event_idx ≡ true
    → vq.vq_used_cons_idx < u16
    → vr.used_idx ≡ vq.vq_used_cons_idx
    → 0 < count
    → count < u16
    → dvq.vq_queued_cnt ≡ count
    → (after : Vring) × (virtqueue_enable_cb env vq vr ≡ ok (false, after))
      × (vq_ring_must_notify dvq (record after { used_idx = (after.used_idx + count) % u16 })
          ≡ true)
unfolding virtqueue_enable_cb vq_ring_enable_interrupt request_event pending virtqueue_nused
    set_vring_used_event vq_ring_must_notify must_notify_as vring_used_event vring_need_event
enable-notifies env vq dvq vr count role drole mode dmode hc none_ some_ few queued = (
  request_event vq vr 0 driver,
  ground (arith, role, none_, vqassert_holds env true),
  ground (arith, role, drole, mode, dmode, none_),
)
