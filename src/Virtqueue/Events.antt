-- ===== src/Virtqueue/Events.antt =====
-- The calls of virtqueue.c that suppress, request and send notifications.
use v85x_openamp.Base.{
  ℕ, ◌+◌, ◌-◌, ◌*◌, ◌/◌, ◌%◌, Bool, ◌&&◌, bit_and, bit_or, update, ltb, leb, ◌==◌, if◌then◌else◌,
}
use v85x_openamp.Virtqueue.State.{
  Run, ok, ◌>>=◌, ◌>>◌, Vring, Virtqueue, Env, Role, driver, device, vqassert, vqueue_busy,
  vqueue_idle, u16,
}

-- subtraction on `uint16_t`
abbrev pub sub16 : ℕ → ℕ → ℕ
sub16 a b = (a + u16 - b) % u16

-- `vring_used_event(vr)`: the slot `num` of the available ring
unfoldable pub vring_used_event : Vring → ℕ
vring_used_event vr = vr.avail_ring vr.num

unfoldable pub set_vring_used_event : Vring → ℕ → Vring
set_vring_used_event vr v = record vr { avail_ring = update vr.avail_ring vr.num (v % u16) }

-- `vring_avail_event(vr)`: the low half of `id` in the slot `num` of the used ring
unfoldable pub vring_avail_event : Vring → ℕ
vring_avail_event vr = (vr.used_ring vr.num).id % u16

unfoldable pub set_vring_avail_event : Vring → ℕ → Vring
set_vring_avail_event vr v =
    let old = vr.used_ring vr.num in
    record vr {
      used_ring = update vr.used_ring vr.num (record old { id = old.id / u16 * u16 + v % u16 });
    }

unfoldable pub vring_need_event : ℕ → ℕ → ℕ → Bool
vring_need_event event_idx new_idx old =
    ltb ((new_idx + u16 + u16 - event_idx - 1) % u16) (sub16 new_idx old)

-- VRING_AVAIL_F_NO_INTERRUPT and VRING_USED_F_NO_NOTIFY are both bit 0.
abbrev pub no_event : ℕ
no_event = 1

-- `flags & ~1` on a `uint16_t`
abbrev pub clear_no_event : ℕ → ℕ
clear_no_event flags = bit_and flags 0xfffe

-- an event index that the other side has just gone past
abbrev pub behind : Virtqueue → ℕ → ℕ
behind vq idx = (idx + u16 + u16 - vq.vq_nentries - 1) % u16

unfoldable pub suppress_event : Virtqueue → Vring → Role → Vring
unfolding set_vring_used_event set_vring_avail_event
suppress_event vq vr driver =
    if vq.event_idx
    then set_vring_used_event vr (behind vq vq.vq_used_cons_idx)
    else record vr { avail_flags = bit_or vr.avail_flags no_event }
suppress_event vq vr device =
    if vq.event_idx
    then set_vring_avail_event vr (behind vq vq.vq_available_idx)
    else record vr { used_flags = bit_or vr.used_flags no_event }

unfoldable pub virtqueue_disable_cb : Env → Virtqueue → Vring → Run (Virtqueue × Vring)
unfolding suppress_event
virtqueue_disable_cb env vq vr = do
  busy ← vqueue_busy env vq
  ok (vqueue_idle env busy, suppress_event busy vr busy.role)

unfoldable pub virtqueue_nused : Env → Virtqueue → Vring → Run ℕ
virtqueue_nused env vq vr = do
  let nused = sub16 vr.used_idx vq.vq_used_cons_idx
  vqassert env (leb nused vq.vq_nentries)
  ok nused

unfoldable pub virtqueue_navail : Env → Virtqueue → Vring → Run ℕ
virtqueue_navail env vq vr = do
  let navail = sub16 vr.avail_idx vq.vq_available_idx
  vqassert env (leb navail vq.vq_nentries)
  ok navail

-- `vq_ring_enable_interrupt`: the part that requests the notification
unfoldable pub request_event : Virtqueue → Vring → ℕ → Role → Vring
unfolding set_vring_used_event set_vring_avail_event
request_event vq vr ndesc driver =
    if vq.event_idx
    then set_vring_used_event vr (vq.vq_used_cons_idx + ndesc)
    else record vr { avail_flags = clear_no_event vr.avail_flags }
request_event vq vr ndesc device =
    if vq.event_idx
    then set_vring_avail_event vr (vq.vq_available_idx + ndesc)
    else record vr { used_flags = clear_no_event vr.used_flags }

-- the part that counts what has come in meanwhile
unfoldable pub pending : Env → Virtqueue → Vring → Role → Run ℕ
unfolding virtqueue_nused virtqueue_navail
pending env vq vr driver = virtqueue_nused env vq vr
pending env vq vr device = virtqueue_navail env vq vr

-- True is the return of 1: entries are pending already.
unfoldable pub vq_ring_enable_interrupt : Env → Virtqueue → Vring → ℕ → Run (Bool × Vring)
unfolding request_event pending
vq_ring_enable_interrupt env vq vr ndesc = do
  let vr' = request_event vq vr ndesc vq.role
  count ← pending env vq vr' vq.role
  ok (ltb ndesc count, vr')

unfoldable pub virtqueue_enable_cb : Env → Virtqueue → Vring → Run (Bool × Vring)
unfolding vq_ring_enable_interrupt
virtqueue_enable_cb env vq vr = vq_ring_enable_interrupt env vq vr 0

unfoldable pub must_notify_as : Virtqueue → Vring → Role → Bool
unfolding vring_need_event vring_avail_event vring_used_event
must_notify_as vq vr driver =
    if vq.event_idx
    then vring_need_event (vring_avail_event vr) vr.avail_idx (sub16 vr.avail_idx vq.vq_queued_cnt)
    else bit_and vr.used_flags no_event == 0
must_notify_as vq vr device =
    if vq.event_idx
    then vring_need_event (vring_used_event vr) vr.used_idx (sub16 vr.used_idx vq.vq_queued_cnt)
    else bit_and vr.avail_flags no_event == 0

unfoldable pub vq_ring_must_notify : Virtqueue → Vring → Bool
unfolding must_notify_as
vq_ring_must_notify vq vr = must_notify_as vq vr vq.role

-- The first part says whether `vq->notify` is called (`vq_ring_notify`).
unfoldable pub virtqueue_kick : Env → Virtqueue → Vring → Run (Bool × Virtqueue)
unfolding vq_ring_must_notify
virtqueue_kick env vq vr = do
  busy ← vqueue_busy env vq
  ok (
    vq_ring_must_notify busy vr && busy.has_notify,
    vqueue_idle env (record busy { vq_queued_cnt = 0 }),
  )

-- whether `vq->callback` is called
unfoldable pub virtqueue_notification : Virtqueue → Bool
virtqueue_notification vq = vq.has_callback
