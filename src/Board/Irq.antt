-- ===== src/Board/Irq.antt =====
-- arch/riscv/sun8i-v85x/sunxi_irq.c: the two tables through which an interrupt reaches its handler.
use v85x_openamp.Base.{
  ℕ, zero, suc, ◌+◌, ◌-◌, ◌%◌, Bool, true, false, not, ◌&&◌, Option, none, some, if◌then◌else◌, ltb,
  update, ℤ, pos, negsuc,
}

-- CLIC_PERIPH_IRQ_OFFSET
abbrev pub periph_offset : ℕ
periph_offset = 16

-- CLIC_IRQ_NUM
abbrev pub irq_num : ℕ
irq_num = 208

-- CORET_IRQn
abbrev pub coret_irqn : ℕ
coret_irqn = 7

-- What `handle_irq` points to: nothing, `clic_null_handler`, or a function of a driver, named by a
-- number.
pub data Handler : Type 0 where
  null_pointer clic_null_handler : Handler
  function : ℕ → Handler

-- What an entry of the vector table points to.
pub data Vector : Type 0 where
  default_handler systick_handler clic_common_handler_ : Vector
  direct : Handler → Vector

-- `struct arch_irq_desc`; `data_` is an address, 0 for NULL.
pub record ArchIrqDesc : Type 0 where
  pub handle_irq : Handler
  pub data_ : ℕ

-- The tables, and the state `V` of the interrupt controller.
pub record Irqs (V : Type 0) : Type 0 where
  pub g_irqvector : ℕ → Vector
  pub arch_irqs_desc : ℕ → ArchIrqDesc
  pub vic : V

abbrev pub is_function : Handler → Bool
is_function null_pointer = false
is_function clic_null_handler = false
is_function (function f) = true

abbrev pub is_null_handler : Handler → Bool
is_null_handler clic_null_handler = true
is_null_handler _ = false

abbrev pub is_null_pointer : Handler → Bool
is_null_pointer null_pointer = true
is_null_pointer _ = false

module _ {V : Type 0} where
  -- The function that is called, with its argument; `none` is the message that there is no handler.
  -- `mcause` names an interrupt of a peripheral.
  unfoldable pub clic_common_handler : Irqs V → ℕ → Option (ℕ × ℕ)
  clic_common_handler s mcause =
      let d = s.arch_irqs_desc (mcause % 4096 - periph_offset) in
      elim d.handle_irq [
        | null_pointer ↦ none
        | clic_null_handler ↦ none
        | function f ↦ some (f, d.data_)
      ]

  -- The number of the interrupt is not negative.
  unfoldable pub arch_request_irq : Irqs V → ℕ → Handler → ℕ → ℤ × Irqs V
  arch_request_irq s irq handler data_ =
      let id = irq - periph_offset in
      if ltb irq periph_offset
      then (pos irq, record s { g_irqvector = update s.g_irqvector irq (direct handler) })
      else if ltb (irq + periph_offset) irq_num
      then (
        pos irq,
        (if not (is_null_pointer handler) && is_null_handler (s.arch_irqs_desc id).handle_irq
            then record s {
              arch_irqs_desc =
                  update s.arch_irqs_desc id (record { handle_irq = handler; data_ = data_ });
            }
            else s),
      )
      else (negsuc 0, s)

  unfoldable pub arch_free_irq : Irqs V → ℕ → Irqs V
  arch_free_irq s irq =
      let id = irq - periph_offset in
      if ltb irq periph_offset
      then record s { g_irqvector = update s.g_irqvector irq default_handler }
      else if ltb (irq + periph_offset) irq_num
      then record s {
        arch_irqs_desc =
            update s.arch_irqs_desc id
              (record (s.arch_irqs_desc id) { handle_irq = clic_null_handler });
      }
      else s

  -- As an unsigned number NMI_EXPn is above every number of an interrupt.
  unfoldable pub enable_irq : (V → ℕ → V) → Irqs V → ℕ → Irqs V
  enable_irq csi_vic_enable_irq s irq = record s { vic = csi_vic_enable_irq s.vic irq }

  module _ (csi_vic_disable_irq : V → ℕ → V) where
    -- As an unsigned number NMI_EXPn is above every number of an interrupt.
    unfoldable pub disable_irq : Irqs V → ℕ → Irqs V
    disable_irq s irq = record s { vic = csi_vic_disable_irq s.vic irq }

    -- the loop of `irq_vectors_init` with `r` rounds to go
    unfoldable pub init_loop : Irqs V → ℕ → ℕ → Irqs V
    unfolding disable_irq
    init_loop s i zero = s
    init_loop s i (suc r) =
        let off = disable_irq s (i - periph_offset) in
        init_loop
          (record off {
            g_irqvector = update off.g_irqvector i clic_common_handler_;
            arch_irqs_desc =
                update off.arch_irqs_desc (i - periph_offset)
                  (record { handle_irq = clic_null_handler; data_ = 0 });
          })
          (i + 1) r

    unfoldable pub irq_vectors_init : Irqs V → Irqs V
    unfolding init_loop
    irq_vectors_init s =
        let after = init_loop s periph_offset (irq_num - periph_offset) in
        record after { g_irqvector = update after.g_irqvector coret_irqn systick_handler }
