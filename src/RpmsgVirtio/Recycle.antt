-- ===== src/RpmsgVirtio/Recycle.antt =====
-- rpmsg_virtio_release_tx_buffer and rpmsg_virtio_send_offchannel_nocopy: a transmit buffer that is
-- given back, and one that is sent.
use v85x_openamp.Base.{ℕ, ◌+◌, ◌<◌, ◌≡◌, true, false, some, List, [], arith, ◌&&◌}
use v85x_openamp.Virtqueue.State.{
  ok, Env, Vring, Virtqueue, u16, vqassert_holds, vqueue_busy, vqueue_idle,
}
use v85x_openamp.Virtqueue.Events.{virtqueue_kick, vq_ring_must_notify}
use v85x_openamp.Virtqueue.Owner.{Chain, Owns}
use v85x_openamp.RpmsgVirtio.State.{
  RpmsgHdr, hdr_size, RpmsgVirtioDevice, held_inc, rpmsg_virtio_buf_held_dec_test,
}
use v85x_openamp.RpmsgVirtio.Buffers.{TxBuffer, recycled_len, rpmsg_virtio_get_tx_buffer}
use v85x_openamp.RpmsgVirtio.Send.{prepare_tx, rpmsg_virtio_release_tx_buffer}

-- The buffer that `rpmsg_virtio_get_tx_payload_buffer` hands out, given back unsent, is the next that a
-- request takes, with the same index, where no other buffer waits to be used again; neither queue is
-- touched.
pub release-get :
    (env : Env) (overlaid : RpmsgHdr) (rvdev : RpmsgVirtioDevice) (b : TxBuffer)
    → b.idx < u16
    → rvdev.reclaimer ≡ []
    → let ready = (prepare_tx (some b, rvdev)).1 in
      let released = (rpmsg_virtio_release_tx_buffer overlaid ready (b.data_ + hdr_size)).1 in
      rpmsg_virtio_get_tx_buffer env released
      ≡ ok (
        some (record { data_ = b.data_; len = recycled_len rvdev.role rvdev b.idx; idx = b.idx }),
        record released { reclaimer = [] },
      )
unfolding prepare_tx rpmsg_virtio_release_tx_buffer rpmsg_virtio_get_tx_buffer
    rpmsg_virtio_buf_held_dec_test held_inc
release-get env overlaid rvdev b small none_ = ground (arith, small, none_)

pub kick_idle :
    (env : Env) (vq : Virtqueue) (vr : Vring)
    → vq.vq_inuse ≡ false
    → virtqueue_kick env vq vr
      ≡ ok (vq_ring_must_notify vq vr && vq.has_notify, record vq { vq_queued_cnt = 0 })
unfolding virtqueue_kick vqueue_busy vqueue_idle vq_ring_must_notify
kick_idle env vq vr idle = ground (arith, idle, vqassert_holds env true)

-- a kick changes no ownership
pub Owns-kick :
    {k : ℕ} {vq : Virtqueue} {vr : Vring} {free : List ℕ} {busy : List Chain}
    → Owns k vq vr free busy
    → Owns k (record vq { vq_queued_cnt = 0 }) vr free busy
Owns-kick o = record {
  width = o.width;
  entries = o.entries;
  idle = o.idle;
  linked = o.linked;
  free_cnt = o.free_cnt;
  chains = o.chains;
  partition = o.partition;
  spare = o.spare;
}
