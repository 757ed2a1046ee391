-- ===== src/Board/VirtUart.antt =====
-- arch/riscv/sun8i-v85x/sunxi_virt_uart.c, sunxi_virt_uart.h, sunxi_openamp_create_endpoint of
-- sunxi_openamp.c, and the part of main.c that starts the two virtual serial lines and answers on them.
pub mod Lines
pub mod Echo
use v85x_openamp.Base.{
  ℕ, ◌-◌, ◌%◌, ◌^◌, true, Option, none, some, List, [], ◌∷◌, if◌then◌else◌, ltb, update, ℤ, pos,
  negsuc, is_negative,
}
use v85x_openamp.Rpmsg.State.{Bitmap, Device, rpmsg_addr_bmp_size, rpmsg_addr_any}
use v85x_openamp.Rpmsg.Send.{rpmsg_send_as}
use v85x_openamp.Rpmsg.Endpoint.{rpmsg_create_ept, rpmsg_destroy_ept}

-- `virt_uart_t`, less the endpoint within it; a callback is named by a number, `none` for NULL.
pub record VirtUart : Type 0 where
  pub name : List ℕ
  pub rx_buf : ℕ
  pub rx_size : ℕ
  pub cb : Option ℕ

-- The device with the lines: `metal_container_of` takes the number of an endpoint to its line.
pub record Uarts (Bits W : Type 0) : Type 0 where
  pub rdev : Device Bits W
  pub uart : ℕ → VirtUart

-- RPMSG_BUFFER_SIZE
abbrev pub rpmsg_buffer_size : ℕ
rpmsg_buffer_size = 512

-- "rpmsg-tty"
abbrev pub rpmsg_service_name : List ℕ
rpmsg_service_name = 114 ∷ 112 ∷ 109 ∷ 115 ∷ 103 ∷ 45 ∷ 116 ∷ 116 ∷ 121 ∷ []

-- the number of `virt_uart_read_cb` among the callbacks of endpoints
abbrev pub read_cb : ℕ
read_cb = 0

module _ {Bits W : Type 0} where
  -- `data` is an address. `call` is the callback of a number on a line.
  unfoldable pub virt_uart_read_cb :
      (ℕ → Uarts Bits W → ℕ → Uarts Bits W) → Uarts Bits W → ℕ → ℕ → ℕ → ℕ → ℤ × Uarts Bits W
  virt_uart_read_cb call s p data_ len src =
      let stored = record s {
        uart = update s.uart p (record (s.uart p) { rx_buf = data_; rx_size = len % 2 ^ 16 });
      } in
      (pos 0, elim (s.uart p).cb [ none ↦ stored | some c ↦ call c stored p ])

  unfoldable pub virt_uart_register_cb : Uarts Bits W → ℕ → Option ℕ → Uarts Bits W
  virt_uart_register_cb s p cb = record s { uart = update s.uart p (record (s.uart p) { cb = cb }) }

  -- `size` is a `uint16_t`.
  unfoldable pub virt_uart_transmit : Uarts Bits W → ℕ → ℕ → ℕ → ℤ × Uarts Bits W
  virt_uart_transmit s p data_ size =
      let (ret, d) = rpmsg_send_as true s.rdev (some p) (some data_) (pos size) in
      if ltb (rpmsg_buffer_size - 16) size then (negsuc 0, s) else (ret, record s { rdev = d })

  -- `printed` is what `sprintf` leaves for a message and the name of a line: the address of the text and
  -- its length.
  unfoldable pub vuart_rx_cb : (ℕ → List ℕ → ℕ × ℕ) → Uarts Bits W → ℕ → Uarts Bits W
  unfolding virt_uart_transmit
  vuart_rx_cb printed s p =
      let (buf, len) = printed (s.uart p).rx_buf (s.uart p).name in
      (virt_uart_transmit s p buf (len % 2 ^ 16)).1

-- `message` is that of the announcements of an endpoint.
module _ (metal : Bitmap rpmsg_addr_bmp_size) (message : ℕ → ℕ → ℕ) (message_size : ℤ)
    {W : Type 0} where
  unfoldable pub sunxi_openamp_create_endpoint :
      Device metal.Bits W → ℕ → List ℕ → ℕ → Option ℕ → Option ℕ → ℤ × Device metal.Bits W
  sunxi_openamp_create_endpoint d p name dest cb unbind_cb =
      rpmsg_create_ept metal message message_size d (some p) true (some name) rpmsg_addr_any dest cb
        unbind_cb

  unfoldable pub virt_uart_init : Uarts metal.Bits W → ℕ → ℤ × Uarts metal.Bits W
  unfolding sunxi_openamp_create_endpoint
  virt_uart_init s p =
      let (ret, d) =
        sunxi_openamp_create_endpoint s.rdev p rpmsg_service_name rpmsg_addr_any (some read_cb)
          none in
      (if is_negative ret then negsuc 0 else pos 0, record s { rdev = d })

  unfoldable pub virt_uart_deinit : Uarts metal.Bits W → ℕ → ℤ × Uarts metal.Bits W
  virt_uart_deinit s p =
      (pos 0, record s { rdev = rpmsg_destroy_ept metal message message_size s.rdev (some p) })

  -- `main` from the first `virt_uart_init` to the loop, with the results of the two calls. Both callbacks
  -- have one text; they are the numbers 0 and 1.
  unfoldable pub main_lines : Uarts metal.Bits W → ℕ → ℕ → ℤ × ℤ × Uarts metal.Bits W
  unfolding virt_uart_init virt_uart_register_cb
  main_lines s vuart0 vuart1 =
      let (rc0, s0) = virt_uart_init s vuart0 in
      let (rc1, s1) = virt_uart_init s0 vuart1 in
      (rc0, rc1, virt_uart_register_cb (virt_uart_register_cb s1 vuart0 (some 0)) vuart1 (some 1))
