-- ===== src/Board/Dispatch.antt =====
-- The way of an interrupt to the handler that was requested for it.
use v85x_openamp.Base.{
  ℕ, zero, suc, ◌+◌, ◌-◌, ◌≤◌, ◌<◌, ◌≡◌, ◌≢◌, ◌∙◌, none, some, if◌then◌else◌, ltb, update, arith,
  pos,
}
use v85x_openamp.Board.Irq.{
  Handler, clic_null_handler, function, systick_handler, clic_common_handler_, Irqs, periph_offset,
  irq_num, coret_irqn, clic_common_handler, arch_request_irq, arch_free_irq, init_loop,
  irq_vectors_init,
}

module _ {V : Type 0} where
  -- A free interrupt of a peripheral below 192 goes to the handler requested for it, with its argument,
  -- and a further request for it changes nothing until it is freed.
  pub request-dispatch :
      (s : Irqs V) (irq f arg g arg' : ℕ)
      → periph_offset ≤ irq
      → irq < irq_num - periph_offset
      → (s.arch_irqs_desc (irq - periph_offset)).handle_irq ≡ clic_null_handler
      → let once = (arch_request_irq s irq (function f) arg).1 in
        (clic_common_handler once irq ≡ some (f, arg))
        × (arch_request_irq once irq (function g) arg' ≡ (pos irq, once))
        × (clic_common_handler (arch_free_irq once irq) irq ≡ none)
  unfolding clic_common_handler arch_request_irq arch_free_irq
  request-dispatch s irq f arg g arg' periph low free = (
    ground (arith, periph, low, free),
    ground (arith, periph, low, free),
    ground (arith, periph, low, free),
  )

  -- A request for one interrupt of a peripheral leaves the way of each other one as it was.
  pub request-others :
      (s : Irqs V) (irq other : ℕ) (handler : Handler) (arg : ℕ)
      → periph_offset ≤ irq
      → periph_offset ≤ other
      → other < 4096
      → other ≢ irq
      → clic_common_handler (arch_request_irq s irq handler arg).1 other
        ≡ clic_common_handler s other
  unfolding clic_common_handler arch_request_irq
  request-others s irq other handler arg hi ho lo ne = ground (arith, hi, ho, lo, ne)

  ticking :
      (s : Irqs V) (irq : ℕ)
      → periph_offset ≤ irq
      → irq < irq_num
      → s.g_irqvector irq ≡ clic_common_handler_
      → s.arch_irqs_desc (irq - periph_offset)
        ≡ record { handle_irq = clic_null_handler; data_ = 0 }
      → let after = record s { g_irqvector = update s.g_irqvector coret_irqn systick_handler } in
        (after.g_irqvector irq ≡ clic_common_handler_)
        × (clic_common_handler after irq ≡ none)
        × (after.g_irqvector coret_irqn ≡ systick_handler)
  unfolding clic_common_handler
  ticking s irq periph low g d =
      (ground (arith, periph, g), ground (arith, periph, low, d), ground arith)

  module _ (csi_vic_disable_irq : V → ℕ → V) where
    init_loop_lem :
        (s : Irqs V) (i r j : ℕ)
        → periph_offset ≤ i
        → periph_offset ≤ j
        → let after = init_loop csi_vic_disable_irq s i r in
          (after.arch_irqs_desc (j - periph_offset) ≡ (
            if ltb j i
            then s.arch_irqs_desc (j - periph_offset)
            else if ltb j (i + r)
            then record { handle_irq = clic_null_handler; data_ = 0 }
            else s.arch_irqs_desc (j - periph_offset)))
          × (after.g_irqvector j ≡ (
              if ltb j i
              then s.g_irqvector j
              else if ltb j (i + r)
              then clic_common_handler_
              else s.g_irqvector j))
    unfolding init_loop
    init_loop_lem s i zero j h hj = (ground arith, ground arith)
    init_loop_lem s i (suc r) j h hj =
        let next = record s {
          vic = csi_vic_disable_irq s.vic (i - periph_offset);
          g_irqvector = update s.g_irqvector i clic_common_handler_;
          arch_irqs_desc =
              update s.arch_irqs_desc (i - periph_offset)
                (record { handle_irq = clic_null_handler; data_ = 0 });
        } in
        let (d, g) = init_loop_lem next (i + 1) r j (omega arith) hj in
        (ground (arith, h, hj, d), ground (arith, h, hj, g))

    -- Initialisation sends every interrupt of a peripheral to the common handler, with no handler
    -- requested, and the system tick to its own.
    pub irq_vectors_init_lem :
        (s : Irqs V) (irq : ℕ)
        → periph_offset ≤ irq
        → irq < irq_num
        → let after = irq_vectors_init csi_vic_disable_irq s in
          (after.g_irqvector irq ≡ clic_common_handler_)
          × (clic_common_handler after irq ≡ none)
          × (after.g_irqvector coret_irqn ≡ systick_handler)
    unfolding irq_vectors_init clic_common_handler
    irq_vectors_init_lem s irq periph low =
        let (d, g) =
          init_loop_lem s periph_offset (irq_num - periph_offset) irq (omega arith) periph in
        ticking (init_loop csi_vic_disable_irq s periph_offset (irq_num - periph_offset)) irq periph
          low (g ∙ ground (arith, periph, low)) (d ∙ ground (arith, periph, low))
