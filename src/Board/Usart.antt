-- ===== src/Board/Usart.antt =====
-- arch/riscv/sun8i-v85x/sunxi_usart.c: a serial port, whose received bytes go through a ring buffer where
-- the build has the console.
pub mod Receive
use v85x_openamp.Base.{
  ℕ, zero, suc, ◌+◌, ◌-◌, ◌*◌, ◌%◌, ◌^◌, Bool, true, false, Option, none, some, if◌then◌else◌, ◌==◌,
  bit_and, bit_or,
}
use v85x_openamp.Virtqueue.State.{Run, ok, out_of_fuel, ◌>>=◌, u32}
use v85x_openamp.RingBuffer.{
  RingBuffer, ringbuffer_init, ringbuffer_put, ringbuffer_get, ringbuffer_num,
}
use v85x_openamp.Board.Gpio.{sunxi_gpio_init}
use v85x_openamp.Board.Irq.{Irqs, function, arch_request_irq, enable_irq}

-- `gpio_mux_t`
pub record GpioMux : Type 0 where
  pub pin : ℕ
  pub mux : ℕ

-- `sunxi_usart_t`; `rx_buffer` is in the ring buffer.
pub record Usart : Type 0 where
  pub base : ℕ
  pub id : ℕ
  pub gpio_tx : GpioMux
  pub gpio_rx : GpioMux
  pub irqn : ℕ
  pub ringbuf : RingBuffer

-- USART_RX_BUFFER_SIZE
abbrev pub rx_buffer_size : ℕ
rx_buffer_size = 256

-- CCU_BASE + CCU_UART_BGR_REG
abbrev pub uart_bgr_reg : ℕ
uart_bgr_reg = 0x0200190c

-- where `ringbuffer_init` refuses, `*rb` is left alone
abbrev pub or_old : RingBuffer → Option RingBuffer → RingBuffer
or_old rb none = rb
or_old rb (some rb') = rb'

-- `address` is that of the structure, `handler` the number of `sunxi_uart_irq_handler`, `buf` what the
-- receive buffer holds.
unfoldable pub console_start :
    {V : Type 0} → (V → ℕ → V) → ℕ → ℕ → (ℕ → ℕ) → Usart → Irqs V → Usart × Irqs V
unfolding enable_irq arch_request_irq
console_start csi_vic_enable_irq handler address buf u s =
    let (_, requested) = arch_request_irq s u.irqn (function handler) address in
    (
      record u { ringbuf = or_old u.ringbuf (ringbuffer_init buf rx_buffer_size) },
      enable_irq csi_vic_enable_irq requested u.irqn,
    )

module _ {R : Type 0} (read32 : ℕ → R → ℕ × R) (write32 : ℕ → ℕ → R → R) where
  -- `val = read32(addr); ...; write32(addr, val)`
  abbrev pub rmw : ℕ → (ℕ → ℕ) → R → R
  rmw addr f r = let (val, r') = read32 addr r in write32 addr (f val) r'

  -- the registers as `sunxi_usart_init` leaves them but for the last write
  unfoldable pub line_start : Usart → R → R
  unfolding sunxi_gpio_init
  line_start u r =
      let r = sunxi_gpio_init read32 write32 u.gpio_tx.pin u.gpio_tx.mux r in
      let r = sunxi_gpio_init read32 write32 u.gpio_rx.pin u.gpio_rx.mux r in
      let r = rmw uart_bgr_reg (λ val. bit_or val (2 ^ u.id % u32)) r in
      let r = rmw uart_bgr_reg (λ val. bit_or val (2 ^ (16 + u.id) % u32)) r in
      let r = write32 ((u.base + 0x04) % u32) 0 r in
      let r = write32 ((u.base + 0x08) % u32) 0xf7 r in
      let r = write32 ((u.base + 0x10) % u32) 0 r in
      let lcr = (u.base + 0x0c) % u32 in
      let r = rmw lcr (λ val. bit_or val 0x80) r in
      let r = write32 u.base 0xd r in
      let r = write32 ((u.base + 0x04) % u32) 0 r in
      let r = rmw lcr (λ val. bit_and val (u32 - 1 - 0x80)) r in
      rmw lcr (λ val. bit_or (bit_and val (u32 - 1 - 0x1f)) 3) r

  -- `console` tells whether CONFIG_ENABLE_CONSOLE is defined, which the firmware leaves undefined.
  unfoldable pub sunxi_usart_init :
      {V : Type 0} → Bool → (V → ℕ → V) → ℕ → ℕ → (ℕ → ℕ) → Usart → R → Irqs V → Usart × R × Irqs V
  unfolding line_start console_start
  sunxi_usart_init false csi_vic_enable_irq handler address buf u r s = (u, line_start u r, s)
  sunxi_usart_init true csi_vic_enable_irq handler address buf u r s =
      let (u', s') = console_start csi_vic_enable_irq handler address buf u s in
      (u', write32 ((u.base + 0x04) % u32) 1 (line_start u r), s')

  -- a wait for a register, `over` telling when it ends
  unfoldable pub wait_reg : ℕ → ℕ → (ℕ → Bool) → R → Run R
  wait_reg zero addr over r = out_of_fuel
  wait_reg (suc fuel) addr over r =
      let (val, r') = read32 addr r in
      elim (over val) [ true ↦ ok r' | false ↦ wait_reg fuel addr over r' ]

  -- `c` is the 32 bits that a char is widened to.
  unfoldable pub sunxi_usart_putc : ℕ → Usart → ℕ → R → Run R
  unfolding wait_reg
  sunxi_usart_putc fuel u c r =
      wait_reg fuel ((u.base + 0x7c) % u32)
        (λ val. elim (bit_and val 2 == 0) [ true ↦ false | false ↦ true ]) r
      >>= λ r'.
          wait_reg fuel ((u.base + 0x14) % u32) (λ val. bit_and val 0x40 == 0) (write32 u.base c r')

  unfoldable pub sunxi_uart_irq_handler : Usart → R → Usart × R
  sunxi_uart_irq_handler u r =
      let (val, r') = read32 u.base r in
      (record u { ringbuf = ringbuffer_put u.ringbuf (val % 256) }, r')

unfoldable pub sunxi_usart_data_in_receive_buffer : Usart → ℕ
sunxi_usart_data_in_receive_buffer u = ringbuffer_num u.ringbuf % 65536

-- `garbage` is what the byte on the stack holds where nothing is stored.
unfoldable pub sunxi_usart_getbyte : ℕ → Usart → ℕ × Usart
sunxi_usart_getbyte garbage u =
    let (out, rb) = ringbuffer_get u.ringbuf in
    (elim out [ none ↦ garbage | some x ↦ x ], record u { ringbuf = rb })
