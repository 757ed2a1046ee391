-- ===== src/Board/System.antt =====
-- arch/riscv/sun8i-v85x/system.c: the start of the core, and waits for the system tick.
pub mod Sleep
use v85x_openamp.Base.{
  ℕ, zero, suc, ◌+◌, ◌-◌, ◌*◌, ◌/◌, ◌%◌, ◌^◌, Bool, true, false, if◌then◌else◌, ◌==◌, ltb, update,
  bit_and, bit_or, List, ◌∷◌,
}
use v85x_openamp.Virtqueue.State.{Run, ok, out_of_fuel, u32}
use v85x_openamp.Heap.{Heap, nut_heap_root_add}
use v85x_openamp.Board.Irq.{
  Irqs, function, coret_irqn, arch_request_irq, enable_irq, irq_vectors_init,
}

-- an entry of CLICINT: IP and ATTR
pub record ClicInt : Type 0 where
  pub ip : ℕ
  pub attr : ℕ

-- What the start of the core sets; `coret` are the periods that the core timer has been given, the last
-- one first.
pub record System (V : Type 0) : Type 0 where
  pub heap : Heap
  pub mstatus : ℕ
  pub mxstatus : ℕ
  pub clicinfo : ℕ
  pub cliccfg : ℕ
  pub clicint : ℕ → ClicInt
  pub irqs : Irqs V
  pub coret : List ℕ
  pub irq_enabled : Bool
  pub tick : ℕ

-- CONFIG_NUTHEAP_MEMORY_SIZE
abbrev pub nutheap_memory_size : ℕ
nutheap_memory_size = 16 * 1024

-- OSC24M_FREQ / CONFIG_HZ
abbrev pub tick_period : ℕ
tick_period = 24000000 / 1000

-- the loop over CLICINT from the entry `i` on, with `n` entries to go
unfoldable pub clic_loop : (ℕ → ClicInt) → ℕ → ℕ → ℕ → ClicInt
clic_loop clicint i zero = clicint
clic_loop clicint i (suc n) = clic_loop (update clicint i (record { ip = 0; attr = 1 })) (suc i) n

module _ {V : Type 0} where
  unfoldable pub sys_tick_handler : System V → System V
  sys_tick_handler s = record s { coret = tick_period ∷ s.coret; tick = (s.tick + 1) % u32 }

  -- `memory` is the address of NUTHEAP_MEMORY, `handler` the number of `SysTick_Handler`. The build
  -- has the FPU.
  unfoldable pub system_init : (V → ℕ → V) → (V → ℕ → V) → ℕ → ℕ → System V → System V
  unfolding clic_loop nut_heap_root_add irq_vectors_init enable_irq arch_request_irq
  system_init csi_vic_enable_irq csi_vic_disable_irq memory handler s =
      let clicint = clic_loop s.clicint 0 4096 in
      let irqs = irq_vectors_init csi_vic_disable_irq s.irqs in
      let (_, requested) = arch_request_irq irqs coret_irqn (function handler) 0 in
      record s {
        heap = nut_heap_root_add s.heap memory nutheap_memory_size;
        mstatus = bit_or s.mstatus (2 ^ 13);
        mxstatus = bit_or (bit_or s.mxstatus (2 ^ 22)) (2 ^ 15);
        cliccfg = bit_and s.clicinfo (15 * 2 ^ 21) / 2 ^ 21 * 2;
        clicint = update clicint 3 (record (clicint 3) { attr = 3 });
        irqs = enable_irq csi_vic_enable_irq requested coret_irqn;
        coret = tick_period ∷ s.coret;
        irq_enabled = true;
      }

-- The wait for `tmo` ticks since `start`, from the read `i` of the tick on; `ticks i` is what that read
-- gives. The result is the last read.
unfoldable pub wait_ticks : ℕ → (ℕ → ℕ) → ℕ → ℕ → ℕ → Run ℕ
wait_ticks zero ticks start tmo i = out_of_fuel
wait_ticks (suc fuel) ticks start tmo i = elim (ltb ((ticks i + u32 - start) % u32) tmo) [
  | true ↦ wait_ticks fuel ticks start tmo (suc i)
  | false ↦ ok i
]

unfoldable pub system_msleep : ℕ → (ℕ → ℕ) → ℕ → Run ℕ
unfolding wait_ticks
system_msleep fuel ticks tmo = wait_ticks fuel ticks (ticks 0) tmo 1

unfoldable pub system_mdelay : ℕ → (ℕ → ℕ) → ℕ → Run ℕ
unfolding system_msleep
system_mdelay fuel ticks tmo = system_msleep fuel ticks tmo

unfoldable pub system_usleep : ℕ → (ℕ → ℕ) → ℕ → Run ℕ
unfolding wait_ticks
system_usleep fuel ticks tmo =
    let ms = tmo / 1000 in wait_ticks fuel ticks (ticks 0) (if ms == 0 then ms + 1 else ms) 1
