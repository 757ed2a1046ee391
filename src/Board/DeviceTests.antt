-- ===== src/Board/DeviceTests.antt =====
-- The theorems on the pins, the serial ports, the tick and the virtual lines at small devices.
use v85x_openamp.Base.{
  ℕ, ◌+◌, ◌%◌, ◌≡◌, refl, ◌⊎◌, arith, Bool, some, pos, negsuc, ℤ, List, [], ◌∷◌, update,
}
use v85x_openamp.Base.Digits.{digit}
use Prim.Native.Nat.{max}
use v85x_openamp.Rpmsg.Endpoint.{rpmsg_get_ept_from_addr}
use v85x_openamp.Rpmsg.Valid.{IsValid}
use v85x_openamp.Rpmsg.Samples.{bits, a_device, a_device-IsValid, a_message}
use v85x_openamp.Board.Irq.{Irqs, clic_null_handler, clic_common_handler_}
use v85x_openamp.Board.Gpio.{up, sunxi_gpio_set_pull, pull_bits}
use v85x_openamp.Board.Gpio.Pins.{Storage, pull_bit, sunxi_gpio_set_pull-adds}
use v85x_openamp.Board.Usart.{Usart, console_start, sunxi_usart_data_in_receive_buffer}
use v85x_openamp.Board.Usart.Receive.{Line, interrupts, getbytes, interrupts-getbytes}
use v85x_openamp.Board.VirtUart.{Uarts, virt_uart_read_cb, vuart_rx_cb, main_lines}
use v85x_openamp.Board.VirtUart.Lines.{main_lines-reached}
use v85x_openamp.Board.VirtUart.Echo.{asked, virt_uart_read_cb-answers}

-- registers that are a function of their address
abbrev read_of : ℕ → (ℕ → ℕ) → ℕ × (ℕ → ℕ)
read_of a r = (r a, r)

abbrev write_of : ℕ → ℕ → (ℕ → ℕ) → ℕ → ℕ
write_of a w r = update r a w

abbrev memory_words : Storage read_of write_of
memory_words = record {
  holds = λ r. r;
  reads = λ a r. refl;
  read_keeps = λ a b r. refl;
  writes = λ a w r b. refl;
}

abbrev all_set : ℕ → ℕ
all_set a = 0xffffffff

-- a pull up for the pin 3, whose two bits are set
sunxi_gpio_set_pull-adds_example :
    pull_bit read_of write_of memory_words (sunxi_gpio_set_pull read_of write_of 3 up all_set) 3 1
    ≡ max (pull_bit read_of write_of memory_words all_set 3 1) (digit (pull_bits up) 1)
sunxi_gpio_set_pull-adds_example =
    sunxi_gpio_set_pull-adds read_of write_of memory_words 3 3 1 up all_set (omega arith)
      (omega arith) (omega arith)

abbrev two_lines : Uarts (ℕ → Bool) ℕ
two_lines = record {
  rdev = a_device;
  uart = λ p. record { name = p ∷ []; rx_buf = 0; rx_size = 0; cb = some 0 };
}

main_lines-reached_example :
    let (rc0, rc1, s') = main_lines bits a_message (pos 40) two_lines 6 7 in
    IsValid bits s'.rdev
    × ((rc0 ≡ negsuc 0) ⊎ (rpmsg_get_ept_from_addr bits s'.rdev (s'.rdev.ept 6).addr ≡ some 6))
    × ((rc1 ≡ negsuc 0) ⊎ (rpmsg_get_ept_from_addr bits s'.rdev (s'.rdev.ept 7).addr ≡ some 7))
    × ((s'.uart 6).cb ≡ some 0)
    × ((s'.uart 7).cb ≡ some 1)
main_lines-reached_example =
    main_lines-reached bits a_message (pos 40) two_lines 6 7 1 2 a_device-IsValid refl refl
      (omega arith) (omega arith) (omega arith) (omega arith) refl refl

-- the transport of the sample device
abbrev count_up : ℕ → ℕ → ℕ → ℕ → ℤ → Bool → ℤ × ℕ
count_up w src dst data_ len wait = (len, w + 1)

abbrev short_text : ℕ → List ℕ → ℕ × ℕ
short_text buf name = (900, 40)

virt_uart_read_cb-answers_example :
    let (status, s') =
      virt_uart_read_cb (λ c s p. vuart_rx_cb short_text s p) two_lines 5 700 12 1030 in
    (status ≡ pos 0)
    × ((s'.uart 5).rx_buf ≡ 700)
    × ((s'.uart 5).rx_size ≡ 12)
    × (s'.rdev ≡ asked count_up two_lines.rdev 5 (900, 40))
virt_uart_read_cb-answers_example =
    virt_uart_read_cb-answers count_up short_text two_lines 5 700 12 1030 0 refl refl (omega arith)
      refl (omega arith)

-- A port that hands out the low bytes of the words of a list.
abbrev low_bytes : List ℕ → List ℕ
low_bytes [] = []
low_bytes (w ∷ ws) = w % 256 ∷ low_bytes ws

abbrev read_port : ℕ → List ℕ → ℕ × List ℕ
read_port a [] = (0, [])
read_port a (w ∷ ws) = (w, ws)

abbrev write_port : ℕ → ℕ → List ℕ → List ℕ
write_port a w ws = ws

read_port-takes :
    (r : List ℕ) (b : ℕ) (bs : List ℕ)
    → low_bytes r ≡ b ∷ bs
    → ((read_port 0x02500000 r).0 % 256 ≡ b) × (low_bytes (read_port 0x02500000 r).1 ≡ bs)
read_port-takes [] b bs e = absurd (ground (arith, e))
read_port-takes (w ∷ ws) b bs e = ground (arith, e)

abbrev a_port : Usart
a_port = record {
  base = 0x02500000;
  id = 0;
  gpio_tx = record { pin = 32; mux = 6 };
  gpio_rx = record { pin = 33; mux = 6 };
  irqn = 34;
  ringbuf = record { buf = λ i. 0; size = 0; read_index = 0; write_index = 0 };
}

abbrev a_line : Line read_port 0x02500000
a_line = record { arrived = low_bytes; takes = read_port-takes }

abbrev no_irqs : Irqs ℕ
no_irqs = record {
  g_irqvector = λ i. clic_common_handler_;
  arch_irqs_desc = λ i. record { handle_irq = clic_null_handler; data_ = 0 };
  vic = 0;
}

interrupts-getbytes_example :
    let started = (console_start (λ v i. v + 1) 9 64 (λ i. 0) a_port no_irqs).0 in
    let (u', r') = interrupts read_port write_port 3 started (104 ∷ 361 ∷ 33 ∷ []) in
    (sunxi_usart_data_in_receive_buffer u' ≡ 3) × (getbytes 0 u' 3 ≡ 104 ∷ 105 ∷ 33 ∷ [])
interrupts-getbytes_example =
    interrupts-getbytes read_port write_port (λ v i. v + 1) 9 64 (λ i. 0) a_port no_irqs 0
      (104 ∷ 361 ∷ 33 ∷ []) a_line (omega arith)
