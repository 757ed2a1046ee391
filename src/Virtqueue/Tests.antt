-- ===== src/Virtqueue/Tests.antt =====
-- The theorems on virtqueues at small queues, and runs of the calls.
use v85x_openamp.Base.{ℕ, ◌+◌, ◌%◌, ◌≡◌, refl, List, [], ◌∷◌, arith, true, false, none, some, ltb}
use v85x_openamp.Base.{◌+◌, ◌*◌, ◌%◌, ◌^◌, ◌≤◌}
use v85x_openamp.Virtqueue.Layout.{
  desc_size, head_size, index_size, elem_size, vring_size, vring_init, vring_init-vring_size,
}
use v85x_openamp.Virtqueue.State.{
  ok, Vring, Virtqueue, VirtqueueBuf, success, vring_no_buff, driver, device, Role, u16,
}
use v85x_openamp.Virtqueue.Driver.{virtqueue_create, virtqueue_add_buffer, virtqueue_get_buffer}
use v85x_openamp.Virtqueue.Events.{
  sub16, vring_need_event, virtqueue_enable_cb, vq_ring_must_notify,
}
use v85x_openamp.Virtqueue.Create.{IsZeroed}
use v85x_openamp.Virtqueue.Owner.{Owns}
use v85x_openamp.Virtqueue.Offer.{Offered, virtqueue_add_buffer-Owns}
use v85x_openamp.Virtqueue.Reclaim.{Reclaimed, virtqueue_get_buffer-Owns}
use v85x_openamp.Virtqueue.Notify.{vring_need_event_lem, enable-notifies}
use v85x_openamp.Virtqueue.Transfer.{
  Session, View, Action, offer, accept, report, reclaim, Reply, status, buffer, returned, run,
  promise, promise_all, pick,
}
use v85x_openamp.Virtqueue.View.{Transfers}
use v85x_openamp.Virtqueue.Start.{created-Transfers}
use v85x_openamp.Virtqueue.Refine.{run_keeps_promise}
use v85x_openamp.Virtqueue.Samples.{
  checked, queue_of, linked_ring, all_free, fresh-Owns, a_chain, used_queue, used_vring, used-Owns,
  a_session, a_session-Transfers,
}

abbrev some_bufs : ℕ → VirtqueueBuf
some_bufs i = record { buf = 4096 + i; len = 16 }

abbrev a_view : View
a_view = record { free = all_free; offered = []; held = []; used = [] }

-- one buffer there and back, and a call on either empty queue
abbrev some_actions : List Action
some_actions =
    accept ∷ offer some_bufs 1 1 7 ∷ accept ∷ report 9 5 ∷ report 0 5 ∷ reclaim ∷ reclaim ∷ []

abbrev some_replies : List Reply
some_replies =
    buffer none
    ∷ status success
    ∷ buffer (some (record { buffer = 4096; avail_idx = 0; len = 16 }))
    ∷ status vring_no_buff
    ∷ status success
    ∷ returned (some (some 7, 5))
    ∷ returned none
    ∷ []

promised : promise_all checked 4 a_view some_actions ≡ some (some_replies, a_view)
unfolding promise_all promise pick
promised = refl

run_keeps_promise_example :
    (s' : Session) × (run checked a_session some_actions ≡ ok (some_replies, s'))
    × Transfers 2 s' a_view
run_keeps_promise_example =
    run_keeps_promise checked 2 a_session a_view some_actions some_replies a_view
      a_session-Transfers promised

zeroed : (role : Role) → IsZeroed (queue_of role 0)
zeroed role = record {
  free_cnt = refl;
  queued_cnt = refl;
  head_idx = refl;
  cons_idx = refl;
  available_idx = refl;
  inuse = refl;
  descx = λ i. refl;
}

created-Transfers_example :
    (s : Session) × (virtqueue_create checked driver true 0
        (record { num_descs = 4 })
        true
        true
        (queue_of driver 0)
        linked_ring
      ≡ (success, s.driver_vq, s.ring))
    × (virtqueue_create checked device true 0
          (record { num_descs = 4 })
          true
          true
          (queue_of driver 0)
          s.ring
        ≡ (success, s.device_vq, s.ring))
    × Transfers 2 s a_view
created-Transfers_example =
    created-Transfers checked true true true true true 0 2 (queue_of driver 0) (queue_of driver 0)
      linked_ring (omega arith) (zeroed driver) (zeroed driver) refl refl

virtqueue_add_buffer-Owns_example :
    (vq' : Virtqueue) × (vr' : Vring) × (virtqueue_add_buffer checked
        (queue_of driver 4)
        linked_ring
        some_bufs
        1
        1
        (some 7)
      ≡ ok (success, vq', vr'))
    × Owns 2 vq' vr' (2 ∷ 3 ∷ []) (a_chain ∷ [])
    × Offered checked 2 some_bufs 1 2 (0 ∷ 1 ∷ []) (queue_of driver 4) linked_ring vq' vr'
virtqueue_add_buffer-Owns_example =
    virtqueue_add_buffer-Owns checked 2 (queue_of driver 4) linked_ring 0 (1 ∷ []) (2 ∷ 3 ∷ []) []
      [] fresh-Owns some_bufs 1 1 7 refl

virtqueue_get_buffer-Owns_example :
    (vq' : Virtqueue) × (vr' : Vring) × (virtqueue_get_buffer checked used_queue used_vring
      ≡ ok (some (record { cookie = some 7; len = 9; idx = 0 }), vq', vr'))
    × Owns 2 vq' vr' all_free []
    × Reclaimed used_queue used_vring vq' vr'
virtqueue_get_buffer-Owns_example =
    virtqueue_get_buffer-Owns checked 2 used_queue used_vring 7 4096 16 0 (1 ∷ []) (2 ∷ 3 ∷ []) []
      [] used-Owns (omega arith) refl

-- the index 1 has just been gone past, across the end of the 16-bit range
vring_need_event_lem_example : vring_need_event 1 2 65535 ≡ ltb (sub16 1 65535) (sub16 2 65535)
vring_need_event_lem_example =
    vring_need_event_lem 1 2 65535 (omega arith) (omega arith) (omega arith)

enable-notifies_example :
    (after : Vring) × (virtqueue_enable_cb checked (queue_of driver 4) linked_ring
      ≡ ok (false, after))
    × (vq_ring_must_notify
          (record (queue_of device 4) { vq_queued_cnt = 1 })
          (record after { used_idx = (after.used_idx + 1) % u16 })
        ≡ true)
enable-notifies_example =
    enable-notifies checked (queue_of driver 4) (record (queue_of device 4) { vq_queued_cnt = 1 })
      linked_ring 1 refl refl refl refl (omega arith) refl (omega arith) (omega arith) refl

-- 256 descriptors on a page
vring_init-vring_size_example :
    let l = vring_init 256 65536 (2 ^ 12) in
    (l.desc + 256 * desc_size ≤ l.avail)
    × (l.avail + head_size + 256 * index_size + index_size ≤ l.used)
    × (l.used % 2 ^ 12 ≡ 0)
    × (l.used + head_size + 256 * elem_size + index_size ≡ 65536 + vring_size 256 (2 ^ 12))
vring_init-vring_size_example =
    vring_init-vring_size 12 (omega arith) 256 65536 (ground arith) (omega arith)
