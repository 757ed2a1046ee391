-- ===== src/RpmsgVirtio/Rx.antt =====
-- rpmsg_virtio_rx_callback: the return of a received buffer to the other side.
use mathlib.Core.Path.{subst}
use v85x_openamp.Base.{
  ℕ, ◌%◌, ◌<◌, ◌≡◌, refl, Bool, true, ◌&&◌, none, List, [], ◌∷◌, arith, update, ℤ,
}
use v85x_openamp.Virtqueue.State.{ok, Env, driver, u16, u32}
use v85x_openamp.Virtqueue.Device.{virtqueue_get_buffer_length}
use v85x_openamp.Virtqueue.Events.{vq_ring_must_notify}
use v85x_openamp.Virtqueue.Owner.{Chain, Owns}
use v85x_openamp.Virtqueue.Offer.{virtqueue_add_buffer-Owns}
use v85x_openamp.Rpmsg.State.{Bitmap, Device, rpmsg_addr_bmp_size}
use v85x_openamp.Rpmsg.Endpoint.{rpmsg_get_ept_from_addr}
use v85x_openamp.RpmsgVirtio.State.{
  RpmsgVirtioDevice, held_inc, held_dec, buf_index, rpmsg_virtio_buf_held_dec_test,
}
use v85x_openamp.RpmsgVirtio.Buffers.{
  TxBuffer, one_buf, return_as, rpmsg_virtio_return_buffer, rpmsg_virtio_release_rx_buffer_nolock,
}
use v85x_openamp.RpmsgVirtio.Receive.{dispatch, rx_round}
use v85x_openamp.RpmsgVirtio.Recycle.{kick_idle, Owns-kick}

-- the chain of a receive buffer that the driver offers
abbrev pub offered_again : Env → RpmsgVirtioDevice → ℕ → ℕ → ℕ → Chain
offered_again env rvdev b idx x = record {
  cookie = b;
  addr = env.virt_to_phys b;
  len = (rvdev.rvring.desc idx).len % u32;
  ids = x ∷ [];
}

module _ (env : Env) (k : ℕ) (rvdev : RpmsgVirtioDevice) (x : ℕ) (rest : List ℕ) (busy : List Chain)
    (o : Owns k rvdev.rvq rvdev.rvring (x ∷ rest) busy) where
  release-Owns :
      (b : ℕ)
      → rvdev.role ≡ driver
      → (told : Bool) × (after : RpmsgVirtioDevice) × (rpmsg_virtio_release_rx_buffer_nolock env
            rvdev b
          ≡ ok (told, after))
        × Owns k after.rvq after.rvring rest
            (offered_again env rvdev b (buf_index (rvdev.hdr b)) x ∷ busy)
        × (after.hdr ≡ rvdev.hdr)
  unfolding rpmsg_virtio_release_rx_buffer_nolock rpmsg_virtio_return_buffer return_as
      virtqueue_get_buffer_length
  release-Owns b role =
      let len = (rvdev.rvring.desc (buf_index (rvdev.hdr b))).len in
      let (vq', vr', call, owns', done) =
        virtqueue_add_buffer-Owns env k rvdev.rvq rvdev.rvring x [] rest [] busy o (one_buf b len) 0
          1 b refl in
      (
        vq_ring_must_notify vq' vr' && vq'.has_notify,
        record rvdev { rvq = record vq' { vq_queued_cnt = 0 }; rvring = vr' },
        ground (arith, role, call, kick_idle env vq' vr' owns'.idle),
        Owns-kick owns',
        refl,
      )

module _ (metal : Bitmap rpmsg_addr_bmp_size) (env : Env)
    (deliver : Device metal.Bits RpmsgVirtioDevice
      → ℕ
      → ℕ
      → ℕ
      → ℕ
      → ℤ × Device metal.Bits RpmsgVirtioDevice) where
  -- On the driver side a message whose address belongs to no endpoint calls no callback, and its buffer
  -- is offered to the other side again, with the length of the descriptor that its index names; no
  -- endpoint changes.
  pub rx_round-dropped :
      (k : ℕ) (d : Device metal.Bits RpmsgVirtioDevice) (m : TxBuffer) (x : ℕ) (rest : List ℕ)
      (busy : List Chain)
      → Owns k d.transport.rvq d.transport.rvring (x ∷ rest) busy
      → d.transport.role ≡ driver
      → m.idx < u16
      → rpmsg_get_ept_from_addr metal d (d.transport.hdr m.data_).dst ≡ none
      → (d' : Device metal.Bits RpmsgVirtioDevice) × (rx_round metal env deliver d m ≡ ok d')
        × Owns k d'.transport.rvq d'.transport.rvring rest
            (offered_again env d.transport m.data_ m.idx x ∷ busy)
        × (d'.ept ≡ d.ept)
  unfolding rx_round dispatch rpmsg_virtio_buf_held_dec_test held_inc held_dec
  rx_round-dropped k d m x rest busy o role small unknown =
      let h = held_inc (record (d.transport.hdr m.data_) { reserved = m.idx }) in
      let (last, h') = rpmsg_virtio_buf_held_dec_test (update d.transport.hdr m.data_ h m.data_) in
      let left = record d.transport {
        hdr = update (update d.transport.hdr m.data_ h) m.data_ h';
      } in
      let (told, after, call, owns, same) = release-Owns env k left x rest busy o m.data_ role in
      let idx : buf_index (left.hdr m.data_) ≡ m.idx = ground (arith, small) in
      let final : last ≡ true = ground (arith, small) in
      (
        record d { transport = after },
        rw (unknown, final, call) refl,
        subst
            (λ i.
              Owns k after.rvq after.rvring rest (offered_again env d.transport m.data_ i x ∷ busy))
            idx owns,
        refl,
      )
