-- ===== src/Board/VirtUart/Echo.antt =====
-- A message to a line of main.c and its answer.
use mathlib.Core.Path.{subst}
use v85x_openamp.Base.{
  ◌<◌, ℕ, ◌-◌, ◌%◌, ◌^◌, ◌≡◌, ◌≢◌, refl, Bool, true, some, List, arith, ltb, if◌then◌else◌, update,
  ℤ, pos,
}
use v85x_openamp.Rpmsg.State.{Device, rpmsg_addr_any}
use v85x_openamp.Rpmsg.Send.{rpmsg_send_as, rpmsg_send_offchannel_raw}
use v85x_openamp.Board.VirtUart.{
  Uarts, rpmsg_buffer_size, virt_uart_read_cb, virt_uart_transmit, vuart_rx_cb,
}

module _ {Bits W : Type 0} where
  -- the device after the transport has been asked to send a text from an endpoint to its other end
  abbrev pub asked : (W → ℕ → ℕ → ℕ → ℤ → Bool → ℤ × W) → Device Bits W → ℕ → ℕ × ℕ → Device Bits W
  asked op d p (buf, len) = record d {
    transport = (op d.transport (d.ept p).addr (d.ept p).dest_addr buf (pos (len % 2 ^ 16)) true).1;
  }

  transmitted :
      (op : W → ℕ → ℕ → ℕ → ℤ → Bool → ℤ × W) (s : Uarts Bits W) (p buf size : ℕ)
      → s.rdev.ops.send_offchannel_raw ≡ some op
      → (s.rdev.ept p).rdev ≡ true
      → (s.rdev.ept p).dest_addr ≢ rpmsg_addr_any
      → let sent =
          op s.rdev.transport (s.rdev.ept p).addr (s.rdev.ept p).dest_addr buf (pos size) true in
        (virt_uart_transmit s p buf size).1 ≡ (
          if ltb (rpmsg_buffer_size - 16) size
          then s
          else record s { rdev = record s.rdev { transport = sent.1 } })
  unfolding virt_uart_transmit rpmsg_send_as rpmsg_send_offchannel_raw
  transmitted op s p buf size has bound known = ground (arith, has, bound, known)

  answered :
      (op : W → ℕ → ℕ → ℕ → ℤ → Bool → ℤ × W) (printed : ℕ → List ℕ → ℕ × ℕ) (s : Uarts Bits W)
      (p : ℕ)
      → s.rdev.ops.send_offchannel_raw ≡ some op
      → (s.rdev.ept p).rdev ≡ true
      → (s.rdev.ept p).dest_addr ≢ rpmsg_addr_any
      → let text = printed (s.uart p).rx_buf (s.uart p).name in
        vuart_rx_cb printed s p
        ≡ (if ltb 496 (text.1 % 2 ^ 16) then s else record s { rdev = asked op s.rdev p text })
  unfolding vuart_rx_cb
  answered op printed s p has bound known =
      let text = printed (s.uart p).rx_buf (s.uart p).name in
      transmitted op s p text.0 (text.1 % 2 ^ 16) has bound known

  -- A message to a line whose callback is set, whose endpoint is on a device with a transport, and that
  -- knows its other end, is kept with the low 16 bits
  -- of its length, and is answered by one send: the text that `sprintf` makes of the message, where it
  -- fits in the buffer of 512 bytes, goes from the address of the line to this other end. Such a text of
  -- more than 496 characters is not sent at all.
  pub virt_uart_read_cb-answers :
      (op : W → ℕ → ℕ → ℕ → ℤ → Bool → ℤ × W) (printed : ℕ → List ℕ → ℕ × ℕ) (s : Uarts Bits W)
      (p data_ len src c : ℕ)
      → s.rdev.ops.send_offchannel_raw ≡ some op
      → (s.rdev.ept p).rdev ≡ true
      → (s.rdev.ept p).dest_addr ≢ rpmsg_addr_any
      → (s.uart p).cb ≡ some c
      → (printed data_ (s.uart p).name).1 < 512
      → let (status, s') = virt_uart_read_cb (λ c s p. vuart_rx_cb printed s p) s p data_ len src in
        let text = printed data_ (s.uart p).name in
        (status ≡ pos 0)
        × ((s'.uart p).rx_buf ≡ data_)
        × ((s'.uart p).rx_size ≡ len % 2 ^ 16)
        × (s'.rdev ≡ (if ltb 496 text.1 then s.rdev else asked op s.rdev p text))
  unfolding virt_uart_read_cb
  virt_uart_read_cb-answers op printed s p data_ len src c has bound known set fits =
      let whole : (printed data_ (s.uart p).name).1 % 2 ^ 16 ≡ (printed data_ (s.uart p).name).1 =
        omega (arith, fits) in
      let stored : Uarts Bits W = record s {
        uart = update s.uart p (record (s.uart p) { rx_buf = data_; rx_size = len % 2 ^ 16 });
      } in
      let e = answered op printed stored p has bound known in
      (
        refl,
        ground (arith, set, e),
        ground (arith, set, e),
        subst
            (λ n.
              (virt_uart_read_cb (λ c s p. vuart_rx_cb printed s p) s p data_ len src).1.rdev
              ≡ (if ltb 496 n then s.rdev else asked op s.rdev p (printed data_ (s.uart p).name)))
            whole (ground (arith, set, e)),
      )
