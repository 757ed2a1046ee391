-- ===== src/Rpmsg/Send.antt =====
-- The calls of an endpoint that go to the operations of its device. A pointer is `none` where it is
-- NULL.
use v85x_openamp.Base.{
  ℕ, ◌≡◌, refl, Bool, true, false, not, ◌&&◌, ◌||◌, Option, none, some, if◌then◌else◌, ◌==◌, arith,
  ℤ, is_negative,
}
use v85x_openamp.Rpmsg.State.{
  Device, rpmsg_addr_any, rpmsg_ns_ept_addr, rpmsg_success, rpmsg_err_param, rpmsg_err_perm,
  rpmsg_eopnotsupp,
}

abbrev pub is_null {ℓ} : {A : Type ℓ} → Option A → Bool
is_null none = true
is_null (some x) = false

module _ {Bits W : Type 0} where
  -- `!ept || !ept->rdev`
  abbrev pub unbound : Device Bits W → Option ℕ → Bool
  unbound d none = true
  unbound d (some p) = not (d.ept p).rdev

  -- an operation that changes the transport alone
  abbrev pub through {ℓ} : {A : Type ℓ} → Device Bits W → A × W → A × Device Bits W
  through d (r, w) = (r, record d { transport = w })

  unfoldable pub rpmsg_send_offchannel_raw :
      Device Bits W → Option ℕ → ℕ → ℕ → Option ℕ → ℤ → Bool → ℤ × Device Bits W
  rpmsg_send_offchannel_raw d ept src dst none len wait = (rpmsg_err_param, d)
  rpmsg_send_offchannel_raw d ept src dst (some data_) len wait =
      if unbound d ept || ((dst == rpmsg_addr_any) || is_negative len)
      then (rpmsg_err_param, d)
      else elim d.ops.send_offchannel_raw [
        | none ↦ (rpmsg_err_param, d)
        | some op ↦ through d (op d.transport src dst data_ len wait)
      ]

  unfoldable pub rpmsg_send_offchannel_nocopy :
      Device Bits W → Option ℕ → ℕ → ℕ → Option ℕ → ℤ → ℤ × Device Bits W
  rpmsg_send_offchannel_nocopy d ept src dst none len = (rpmsg_err_param, d)
  rpmsg_send_offchannel_nocopy d ept src dst (some data_) len =
      if unbound d ept || ((dst == rpmsg_addr_any) || is_negative len)
      then (rpmsg_err_param, d)
      else elim d.ops.send_offchannel_nocopy [
        | none ↦ (rpmsg_err_param, d)
        | some op ↦ through d (op d.transport src dst data_ len)
      ]

  -- `rpmsg_send`, `rpmsg_sendto` and `rpmsg_send_offchannel` wait for a buffer; the three calls named
  -- `rpmsg_try…` do not.
  unfoldable pub rpmsg_send_as : Bool → Device Bits W → Option ℕ → Option ℕ → ℤ → ℤ × Device Bits W
  rpmsg_send_as wait d none data_ len = (rpmsg_err_param, d)
  rpmsg_send_as wait d (some p) data_ len =
      rpmsg_send_offchannel_raw d (some p) (d.ept p).addr (d.ept p).dest_addr data_ len wait

  unfoldable pub rpmsg_sendto_as :
      Bool → Device Bits W → Option ℕ → Option ℕ → ℤ → ℕ → ℤ × Device Bits W
  rpmsg_sendto_as wait d none data_ len dst = (rpmsg_err_param, d)
  rpmsg_sendto_as wait d (some p) data_ len dst =
      rpmsg_send_offchannel_raw d (some p) (d.ept p).addr dst data_ len wait

  unfoldable pub rpmsg_sendto_nocopy :
      Device Bits W → Option ℕ → Option ℕ → ℤ → ℕ → ℤ × Device Bits W
  rpmsg_sendto_nocopy d none data_ len dst = (rpmsg_err_param, d)
  rpmsg_sendto_nocopy d (some p) data_ len dst =
      rpmsg_send_offchannel_nocopy d (some p) (d.ept p).addr dst data_ len

  unfoldable pub rpmsg_send_nocopy : Device Bits W → Option ℕ → Option ℕ → ℤ → ℤ × Device Bits W
  rpmsg_send_nocopy d none data_ len = (rpmsg_err_param, d)
  rpmsg_send_nocopy d (some p) data_ len =
      rpmsg_send_offchannel_nocopy d (some p) (d.ept p).addr (d.ept p).dest_addr data_ len

  unfoldable pub is_rpmsg_ept_ready : Device Bits W → Option ℕ → Bool
  is_rpmsg_ept_ready d none = false
  is_rpmsg_ept_ready d (some p) = (d.ept p).rdev && not ((d.ept p).dest_addr == rpmsg_addr_any)

  -- `message p flags` is the address of the announcement that the call builds on its stack.
  module _ (message : ℕ → ℕ → ℕ) (message_size : ℤ) where
    unfoldable pub rpmsg_send_ns_message : Device Bits W → ℕ → ℕ → ℤ × Device Bits W
    rpmsg_send_ns_message d p flags =
        let (ret, d') =
          rpmsg_send_offchannel_raw d (some p) (d.ept p).addr rpmsg_ns_ept_addr
            (some (message p flags)) message_size true in
        (if is_negative ret then ret else rpmsg_success, d')

  unfoldable pub rpmsg_hold_rx_buffer : Device Bits W → Option ℕ → Option ℕ → Device Bits W
  rpmsg_hold_rx_buffer d ept none = d
  rpmsg_hold_rx_buffer d ept (some rxbuf) = if unbound d ept then d else elim d.ops.hold_rx_buffer [
    | none ↦ d
    | some op ↦ record d { transport = op d.transport rxbuf }
  ]

  unfoldable pub rpmsg_release_rx_buffer : Device Bits W → Option ℕ → Option ℕ → Device Bits W
  rpmsg_release_rx_buffer d ept none = d
  rpmsg_release_rx_buffer d ept (some rxbuf) =
      if unbound d ept then d else elim d.ops.release_rx_buffer [
        | none ↦ d
        | some op ↦ record d { transport = op d.transport rxbuf }
      ]

  unfoldable pub rpmsg_release_tx_buffer : Device Bits W → Option ℕ → Option ℕ → ℤ × Device Bits W
  rpmsg_release_tx_buffer d ept none = (rpmsg_err_param, d)
  rpmsg_release_tx_buffer d ept (some buf) =
      if unbound d ept then (rpmsg_err_param, d) else elim d.ops.release_tx_buffer [
        | none ↦ (rpmsg_err_perm, d)
        | some op ↦ through d (op d.transport buf)
      ]

  -- The buffer comes with its length; `has_len` says whether the pointer `len` is set.
  unfoldable pub rpmsg_get_tx_payload_buffer :
      Device Bits W → Option ℕ → Bool → Bool → Option (ℕ × ℕ) × Device Bits W
  rpmsg_get_tx_payload_buffer d ept has_len wait =
      if unbound d ept || not has_len then (none, d) else elim d.ops.get_tx_payload_buffer [
        | none ↦ (none, d)
        | some op ↦ through d (op d.transport wait)
      ]

  unfoldable pub rpmsg_get_tx_buffer_size : Device Bits W → Option ℕ → ℤ
  rpmsg_get_tx_buffer_size d ept =
      if unbound d ept
      then rpmsg_err_param
      else elim d.ops.get_tx_buffer_size [ none ↦ rpmsg_eopnotsupp | some op ↦ op d.transport ]

  unfoldable pub rpmsg_get_rx_buffer_size : Device Bits W → Option ℕ → ℤ
  rpmsg_get_rx_buffer_size d ept =
      if unbound d ept
      then rpmsg_err_param
      else elim d.ops.get_rx_buffer_size [ none ↦ rpmsg_eopnotsupp | some op ↦ op d.transport ]

  -- Whatever a send does and returns, it changes the transport and nothing else of the device, and an
  -- endpoint that is no longer bound reaches no operation at all.
  pub rpmsg_send_offchannel_raw-frame :
      (d : Device Bits W) (ept : Option ℕ) (src dst : ℕ) (data_ : Option ℕ) (len : ℤ) (wait : Bool)
      → let (ret, d') = rpmsg_send_offchannel_raw d ept src dst data_ len wait in
        d' ≡ record d { transport = d'.transport }
  unfolding rpmsg_send_offchannel_raw
  rpmsg_send_offchannel_raw-frame d ept src dst none len wait = refl
  rpmsg_send_offchannel_raw-frame d ept src dst (some data_) len wait = ground (arith)
