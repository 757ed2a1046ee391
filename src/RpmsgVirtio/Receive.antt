-- ===== src/RpmsgVirtio/Receive.antt =====
-- The receive side of rpmsg_virtio.c: the loop over the received messages, and the announcements of
-- the name service. The transport of the rpmsg device is its virtio part.
use v85x_openamp.Base.{
  ℕ, zero, suc, ◌+◌, not, Option, none, some, List, if◌then◌else◌, ◌==◌, update, ℤ, is_negative,
  bit_and,
}
use v85x_openamp.Virtqueue.State.{Run, ok, out_of_fuel, ◌>>=◌, ◌>>◌, Env}
use v85x_openamp.Rpmsg.State.{Bitmap, Device, rpmsg_addr_bmp_size, rpmsg_addr_any, rpmsg_success}
use v85x_openamp.Rpmsg.Send.{is_null}
use v85x_openamp.Rpmsg.Endpoint.{
  rpmsg_ept_incref, rpmsg_ept_decref, rpmsg_get_endpoint, rpmsg_get_ept_from_addr,
}
use v85x_openamp.RpmsgVirtio.State.{
  RpmsgHdr, hdr_size, RpmsgVirtioDevice, held_inc, rpmsg_virtio_buf_held_dec_test,
}
use v85x_openamp.RpmsgVirtio.Buffers.{
  TxBuffer, rpmsg_assert, rpmsg_virtio_get_rx_buffer, rpmsg_virtio_release_rx_buffer_nolock,
}

module _ {Bits : Type 0} where
  abbrev pub set_hdr : Device Bits RpmsgVirtioDevice → ℕ → RpmsgHdr → Device Bits RpmsgVirtioDevice
  set_hdr d b h = record d { transport = record d.transport { hdr = update d.transport.hdr b h } }

  -- The calls on a pointer that may be NULL; `release_cb` is not followed.
  abbrev pub incref_at : Device Bits RpmsgVirtioDevice → Option ℕ → Device Bits RpmsgVirtioDevice
  incref_at d none = d
  incref_at d (some p) = record d { ept = update d.ept p (rpmsg_ept_incref (d.ept p)) }

  abbrev pub decref_at : Device Bits RpmsgVirtioDevice → Option ℕ → Device Bits RpmsgVirtioDevice
  decref_at d none = d
  decref_at d (some p) = record d { ept = update d.ept p (rpmsg_ept_decref (d.ept p)).1 }

  abbrev pub set_dest : Device Bits RpmsgVirtioDevice → Option ℕ → ℕ → Device Bits RpmsgVirtioDevice
  set_dest d none dest = d
  set_dest d (some p) dest = record d {
    ept = update d.ept p (record (d.ept p) { dest_addr = dest });
  }

module _ (metal : Bitmap rpmsg_addr_bmp_size) (env : Env) where
  -- `deliver` is `ept->cb` on the endpoint, the address and length of the payload and the source.
  module _
      (deliver : Device metal.Bits RpmsgVirtioDevice
        → ℕ
        → ℕ
        → ℕ
        → ℕ
        → ℤ × Device metal.Bits RpmsgVirtioDevice) where
    -- the part under `if (ept)`
    unfoldable pub dispatch :
        Device metal.Bits RpmsgVirtioDevice
        → Option ℕ
        → RpmsgHdr
        → ℕ
        → Run (Device metal.Bits RpmsgVirtioDevice)
    dispatch d none h b = ok d
    dispatch d (some p) h b = do
      let known = if (d.ept p).dest_addr == rpmsg_addr_any then set_dest d (some p) h.src else d
      let (status, d') = deliver known p (b + hdr_size) h.len h.src
      rpmsg_assert (not (is_negative status))
      ok d'

    -- one message, from the store of its index on
    unfoldable pub rx_round :
        Device metal.Bits RpmsgVirtioDevice → TxBuffer → Run (Device metal.Bits RpmsgVirtioDevice)
    unfolding dispatch
    rx_round d m = do
      let h = held_inc (record (d.transport.hdr m.data_) { reserved = m.idx })
      let ept = rpmsg_get_ept_from_addr metal d h.dst
      d' ← dispatch (set_hdr (incref_at d ept) m.data_ h) ept h m.data_
      let done = decref_at d' ept
      let (last, h') = rpmsg_virtio_buf_held_dec_test (done.transport.hdr m.data_)
      let left = set_hdr done m.data_ h'
      (if last
          then (rpmsg_virtio_release_rx_buffer_nolock env left.transport m.data_
              >>= λ (told, rvdev). ok (record left { transport = rvdev }))
          else ok left)

    unfoldable pub rpmsg_virtio_rx_callback :
        ℕ → Device metal.Bits RpmsgVirtioDevice → Run (Device metal.Bits RpmsgVirtioDevice)
    unfolding rx_round
    rpmsg_virtio_rx_callback zero d = out_of_fuel
    rpmsg_virtio_rx_callback (suc fuel) d =
        rpmsg_virtio_get_rx_buffer env d.transport >>= λ (got, rvdev). elim got [
          | none ↦ ok (record d { transport = rvdev })
          | some m ↦
              rx_round (record d { transport = rvdev }) m >>= λ d'. rpmsg_virtio_rx_callback fuel d'
        ]

  -- `ns_unbind` is `ept->ns_unbind_cb` on an endpoint, `rdev_unbind` and `rdev_bind` are the callbacks of
  -- the device on a name and an address, `none` for NULL.
  module _
      (ns_unbind : Device metal.Bits RpmsgVirtioDevice → ℕ → Device metal.Bits RpmsgVirtioDevice)
      (rdev_unbind rdev_bind : Option (
        Device metal.Bits RpmsgVirtioDevice
        → List ℕ
        → ℕ
        → Device metal.Bits RpmsgVirtioDevice)) where
    abbrev pub call_rdev :
        Option
          (Device metal.Bits RpmsgVirtioDevice → List ℕ → ℕ → Device metal.Bits RpmsgVirtioDevice)
        → Device metal.Bits RpmsgVirtioDevice
        → List ℕ
        → ℕ
        → Device metal.Bits RpmsgVirtioDevice
    call_rdev none d name dest = d
    call_rdev (some cb) d name dest = cb d name dest

    abbrev pub call_unbind :
        Device metal.Bits RpmsgVirtioDevice → Option ℕ → Device metal.Bits RpmsgVirtioDevice
    call_unbind d none = d
    call_unbind d (some p) = if is_null (d.ept p).ns_unbind_cb then d else ns_unbind d p

    -- the branch of RPMSG_NS_DESTROY
    unfoldable pub ns_destroyed :
        Device metal.Bits RpmsgVirtioDevice
        → Option ℕ
        → List ℕ
        → ℕ
        → Device metal.Bits RpmsgVirtioDevice
    ns_destroyed d none name dest = call_rdev rdev_unbind d name dest
    ns_destroyed d (some p) name dest =
        let keep = not (is_null (d.ept p).release_cb) in
        let unset = set_dest d (some p) rpmsg_addr_any in
        let held = if keep then incref_at unset (some p) else unset in
        let told = call_rdev rdev_unbind (call_unbind held (some p)) name dest in
        if keep then decref_at told (some p) else told

    -- the other branch
    unfoldable pub ns_created :
        Device metal.Bits RpmsgVirtioDevice
        → Option ℕ
        → List ℕ
        → ℕ
        → Device metal.Bits RpmsgVirtioDevice
    ns_created d none name dest = call_rdev rdev_bind d name dest
    ns_created d (some p) name dest = set_dest d (some p) dest

    -- The payload as its length, and the name, address and flags read from it; it always returns
    -- RPMSG_SUCCESS. A message has 40 bytes.
    unfoldable pub rpmsg_virtio_ns_callback :
        Device metal.Bits RpmsgVirtioDevice
        → ℕ
        → List ℕ
        → ℕ
        → ℕ
        → ℤ × Device metal.Bits RpmsgVirtioDevice
    unfolding ns_destroyed ns_created
    rpmsg_virtio_ns_callback d len name dest flags =
        let ept = rpmsg_get_endpoint metal d (some name) rpmsg_addr_any dest in
        (
          rpmsg_success,
          (if not (len == 40)
              then d
              else if not (bit_and flags 1 == 0)
              then ns_destroyed d ept name dest
              else ns_created d ept name dest),
        )
