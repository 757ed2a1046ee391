-- ===== src/Board/Usart/Receive.antt =====
-- The bytes that a serial port receives, from the interrupt to sunxi_usart_getbyte.
use v85x_openamp.Base.{
  ℕ, zero, suc, ◌+◌, ◌%◌, ◌≤◌, ◌≡◌, refl, sym, ap, ◌∙◌, none, some, List, [], ◌∷◌, ◌++◌, arith,
  length, length-append, Option,
}
use mathlib.Core.Path.{ap₂, subst}
use mathlib.Core.List.{append_assoc, append-nil}
use v85x_openamp.RingBuffer.{ringbuffer_init, ringbuffer_put, ringbuffer_get}
use v85x_openamp.RingBuffer.Queue.{take_last_room, get}
use v85x_openamp.RingBuffer.Refine.{
  IsValid, contents, ringbuffer_put-IsValid, ringbuffer_get-IsValid, ringbuffer_put_refines,
  ringbuffer_get_refines, ringbuffer_num_refines,
}
use v85x_openamp.RingBuffer.Init.{ringbuffer_init_power}
use v85x_openamp.Board.Irq.{Irqs}
use v85x_openamp.Board.Usart.{
  Usart, rx_buffer_size, or_old, console_start, sunxi_uart_irq_handler,
  sunxi_usart_data_in_receive_buffer, sunxi_usart_getbyte,
}

-- What the port does: a read of its data register takes the first of the bytes that have arrived.
pub record Line {R : Type 0} (read32 : ℕ → R → ℕ × R) (base : ℕ) : Type 0 where
  pub arrived : R → List ℕ
  pub takes :
      (r : R) (b : ℕ) (bs : List ℕ)
      → arrived r ≡ b ∷ bs
      → ((read32 base r).0 % 256 ≡ b) × (arrived (read32 base r).1 ≡ bs)

-- one call of sunxi_usart_getbyte after the other
unfoldable pub getbytes : ℕ → Usart → ℕ → List ℕ
unfolding sunxi_usart_getbyte
getbytes garbage u zero = []
getbytes garbage u (suc n) =
    let (b, u') = sunxi_usart_getbyte garbage u in b ∷ getbytes garbage u' n

getbytes-contents :
    (garbage : ℕ) (u : Usart) (bs : List ℕ)
    → IsValid 8 u.ringbuf
    → contents 8 u.ringbuf ≡ bs
    → getbytes garbage u (length bs) ≡ bs
unfolding getbytes sunxi_usart_getbyte get
getbytes-contents garbage u [] v e = refl
getbytes-contents garbage u (b ∷ bs) v e =
    let step : ((ringbuffer_get u.ringbuf).0, contents 8 (ringbuffer_get u.ringbuf).1)
        ≡ (some b, bs) =
      ringbuffer_get_refines v ∙ ap get e in
    ap₂ ◌∷◌
      (ap (λ (t : Option ℕ × List ℕ). elim t.0 as (λ _. ℕ) [ none ↦ garbage | some x ↦ x ]) step)
      (getbytes-contents garbage (record u { ringbuf = (ringbuffer_get u.ringbuf).1 }) bs
        (ringbuffer_get-IsValid v) (ap (λ (t : Option ℕ × List ℕ). t.1) step))

module _ {R : Type 0} (read32 : ℕ → R → ℕ × R) (write32 : ℕ → ℕ → R → R) where
  -- one interrupt for each byte
  unfoldable pub interrupts : ℕ → Usart → R → Usart × R
  unfolding sunxi_uart_irq_handler
  interrupts zero u r = (u, r)
  interrupts (suc n) u r =
      let (u', r') = sunxi_uart_irq_handler read32 write32 u r in interrupts n u' r'

  interrupts-contents :
      (bs q : List ℕ) (u : Usart) (r : R) (line : Line read32 u.base)
      → line.arrived r ≡ bs
      → IsValid 8 u.ringbuf
      → contents 8 u.ringbuf ≡ q
      → length q + length bs ≤ rx_buffer_size
      → let (u', r') = interrupts (length bs) u r in
        IsValid 8 u'.ringbuf × (contents 8 u'.ringbuf ≡ q ++ bs)
  unfolding interrupts sunxi_uart_irq_handler
  interrupts-contents [] q u r line arrived v held room = (v, held ∙ sym (append-nil q))
  interrupts-contents (b ∷ bs) q u r line arrived v held room =
      let (val, left) = line.takes r b bs arrived in
      let x = (read32 u.base r).0 % 256 in
      let u' = record u { ringbuf = ringbuffer_put u.ringbuf x } in
      let stored : contents 8 u'.ringbuf ≡ q ++ b ∷ [] =
        ringbuffer_put_refines v x
        ∙ rw (held, val) (take_last_room 256 q b (omega (arith, room))) in
      let (v', all) =
        interrupts-contents bs (q ++ b ∷ []) u' (read32 u.base r).1 line left
          (ringbuffer_put-IsValid v x) stored (omega (arith, length-append q (b ∷ []), room)) in
      (v', all ∙ append_assoc q (b ∷ []) bs)

  -- After the start of the console, with a line that delivers at most 256 bytes, the interrupts put
  -- them in the buffer, their number is reported, and as many calls of sunxi_usart_getbyte return them
  -- in the order in which they came.
  pub interrupts-getbytes :
      {V : Type 0} (csi_vic_enable_irq : V → ℕ → V) (handler address : ℕ) (buf : ℕ → ℕ) (u : Usart)
      (s : Irqs V) (garbage : ℕ) (r : R) (line : Line read32 u.base)
      → length (line.arrived r) ≤ rx_buffer_size
      → let started = (console_start csi_vic_enable_irq handler address buf u s).0 in
        let n = length (line.arrived r) in
        let (u', r') = interrupts n started r in
        (sunxi_usart_data_in_receive_buffer u' ≡ n) × (getbytes garbage u' n ≡ line.arrived r)
  unfolding console_start sunxi_usart_data_in_receive_buffer
  interrupts-getbytes csi_vic_enable_irq handler address buf u s garbage r line room =
      let (rb, made, v, empty) = ringbuffer_init_power buf 8 (omega arith) in
      let started = record u { ringbuf = or_old u.ringbuf (ringbuffer_init buf rx_buffer_size) } in
      let same : started.ringbuf ≡ rb = ap (or_old u.ringbuf) made in
      let (v', all) =
        interrupts-contents (line.arrived r) [] started r line refl (subst (IsValid 8) (sym same) v)
          (ap (contents 8) same ∙ empty) (omega (arith, room)) in
      let u' = (interrupts (length (line.arrived r)) started r).0 in
      (
        ap (λ n. n % 65536) (ringbuffer_num_refines v' ∙ ap length all) ∙ omega (arith, room),
        getbytes-contents garbage u' (line.arrived r) v' all,
      )
