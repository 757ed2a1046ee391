-- ===== src/RpmsgVirtio/Held.antt =====
-- The reference count of a buffer, in the high half of `reserved` over the index in the low half.
use v85x_openamp.Base.{ℕ, ◌+◌, ◌-◌, ◌<◌, ◌≡◌, false, arith, ◌==◌, update}
use v85x_openamp.Virtqueue.State.{ok, Env, u16}
use v85x_openamp.RpmsgVirtio.State.{
  RpmsgHdr, hdr_size, RpmsgVirtioDevice, held_counter, held_inc, held_dec, buf_index,
  rpmsg_virtio_buf_held_dec_test,
}
use v85x_openamp.RpmsgVirtio.Buffers.{rpmsg_virtio_hold_rx_buffer, rpmsg_virtio_release_rx_buffer}

-- Holding a buffer counts one more reference, up to 65535, and keeps the index.
pub held_inc_lem :
    (h : RpmsgHdr)
    → held_counter h + 1 < u16
    → (held_counter (held_inc h) ≡ held_counter h + 1) × (buf_index (held_inc h) ≡ buf_index h)
unfolding held_inc
held_inc_lem h room = (ground (arith, room), ground arith)

-- Giving up a reference says that the buffer is to be released exactly at the last one; without any
-- reference the header stays as it is. The index is kept.
pub rpmsg_virtio_buf_held_dec_test_lem :
    (h : RpmsgHdr)
    → let (last, h') = rpmsg_virtio_buf_held_dec_test h in
      (last ≡ (held_counter h == 1))
      × (held_counter h' ≡ held_counter h - 1)
      × (buf_index h' ≡ buf_index h)
unfolding rpmsg_virtio_buf_held_dec_test held_dec
rpmsg_virtio_buf_held_dec_test_lem h = (ground arith, ground arith, ground arith)

-- A receive buffer that its callback has held once more survives the release that ends the callback:
-- no queue is touched, and the header has its count and its index of before.
pub hold-release :
    (env : Env) (rvdev : RpmsgVirtioDevice) (rxbuf : ℕ)
    → 0 < held_counter (rvdev.hdr (rxbuf - hdr_size))
    → held_counter (rvdev.hdr (rxbuf - hdr_size)) + 1 < u16
    → (h : RpmsgHdr) × (rpmsg_virtio_release_rx_buffer env
          (rpmsg_virtio_hold_rx_buffer rvdev rxbuf)
          rxbuf
        ≡ ok (
          false,
          record rvdev {
            hdr =
                update
                  (update rvdev.hdr (rxbuf - hdr_size) (held_inc (rvdev.hdr (rxbuf - hdr_size))))
                  (rxbuf - hdr_size)
                  h;
          },
        ))
      × (held_counter h ≡ held_counter (rvdev.hdr (rxbuf - hdr_size)))
      × (buf_index h ≡ buf_index (rvdev.hdr (rxbuf - hdr_size)))
unfolding rpmsg_virtio_release_rx_buffer rpmsg_virtio_hold_rx_buffer
hold-release env rvdev rxbuf held room =
    let before = rvdev.hdr (rxbuf - hdr_size) in
    let after = (rpmsg_virtio_buf_held_dec_test (held_inc before)).1 in
    (
      after,
      ground (
        arith,
        held,
        rpmsg_virtio_buf_held_dec_test_lem (held_inc before),
        held_inc_lem before room,
      ),
      ground
          (arith, rpmsg_virtio_buf_held_dec_test_lem (held_inc before), held_inc_lem before room),
      ground
          (arith, rpmsg_virtio_buf_held_dec_test_lem (held_inc before), held_inc_lem before room),
    )
