-- ===== src/Board/Mailbox.antt =====
-- arch/riscv/sun8i-v85x/sunxi_mailbox.c and sunxi_mailbox.h: the mailbox between the two cores. Numbers
-- of cores and channels are the 32 bits of an `int32_t`.
pub mod Channels
pub mod Allocation
pub mod Packing
pub mod Words
pub mod Drain
use v85x_openamp.Base.{
  ℕ, zero, suc, ◌+◌, ◌-◌, ◌*◌, ◌%◌, ◌^◌, Bool, true, false, ◌&&◌, ◌||◌, Option, none, some, List,
  [], ◌∷◌, if◌then◌else◌, ltb, leb, ◌==◌, update, bit_and, bit_or,
}
use v85x_openamp.Board.Irq.{Irqs, function, enable_irq, arch_request_irq}
use v85x_openamp.Virtqueue.State.{Run, ok, out_of_fuel, ◌>>=◌, u32}

-- `struct msg_endpoint`; of `receive`, whether it is set. This code does not read `data`, `tx_done` and
-- `priv`.
pub record MsgEndpoint : Type 0 where
  pub local_amp : ℕ
  pub remote_amp : ℕ
  pub write_ch : ℕ
  pub read_ch : ℕ
  pub receive : Bool
  pub next : Option ℕ

-- `it_edp`, the endpoints by their address, the registers, and what the callbacks keep for themselves.
pub record Msgbox (R D : Type 0) : Type 0 where
  pub it_edp : Option ℕ
  pub ept : ℕ → MsgEndpoint
  pub regs : R
  pub clients : D

-- MSGBOX_MAX_QUEUE
abbrev pub max_queue : ℕ
max_queue = 8

-- THIS_MSGBOX_USE, which is MSGBOX_RISCV
abbrev pub this_msgbox_use : ℕ
this_msgbox_use = 1

-- 2 ^ 31, from which on the 32 bits are those of a negative number
abbrev pub sign_bit : ℕ
sign_bit = 0x80000000

-- `a < b` of two signed numbers
abbrev pub slt : ℕ → ℕ → Bool
slt a b = ltb ((a + sign_bit) % u32) ((b + sign_bit) % u32)

unfoldable pub calculte_n : ℕ → ℕ → ℕ
calculte_n local_ remote = if slt remote local_ then remote else (remote + u32 - 1) % u32

abbrev pub msgbox_base_get : ℕ → ℕ
msgbox_base_get m = if m == 0 then 0x03003000 else if m == 1 then 0x06020000 else 0

abbrev pub msgbox_rd_irq_en_reg : ℕ → ℕ → ℕ
msgbox_rd_irq_en_reg m n = (msgbox_base_get m + 0x20 + n * 0x100) % u32

abbrev pub msgbox_rd_irq_sta_reg : ℕ → ℕ → ℕ
msgbox_rd_irq_sta_reg m n = (msgbox_base_get m + 0x24 + n * 0x100) % u32

abbrev pub msgbox_msg_sta_reg : ℕ → ℕ → ℕ → ℕ
msgbox_msg_sta_reg m n p = (msgbox_base_get m + 0x60 + n * 0x100 + p * 0x4) % u32

abbrev pub msgbox_msg_reg : ℕ → ℕ → ℕ → ℕ
msgbox_msg_reg m n p = (msgbox_base_get m + 0x70 + n * 0x100 + p * 0x4) % u32

-- the status and the data register that an endpoint reads from, and those that it writes to
abbrev pub read_status : MsgEndpoint → ℕ
read_status e = msgbox_msg_sta_reg e.local_amp (calculte_n e.local_amp e.remote_amp) e.read_ch

abbrev pub read_reg : MsgEndpoint → ℕ
read_reg e = msgbox_msg_reg e.local_amp (calculte_n e.local_amp e.remote_amp) e.read_ch

abbrev pub write_status : MsgEndpoint → ℕ
write_status e = msgbox_msg_sta_reg e.remote_amp (calculte_n e.remote_amp e.local_amp) e.write_ch

abbrev pub write_reg : MsgEndpoint → ℕ
write_reg e = msgbox_msg_reg e.remote_amp (calculte_n e.remote_amp e.local_amp) e.write_ch

abbrev pub irq_enable : MsgEndpoint → ℕ
irq_enable e = msgbox_rd_irq_en_reg e.local_amp (calculte_n e.local_amp e.remote_amp)

abbrev pub irq_status : MsgEndpoint → ℕ
irq_status e = msgbox_rd_irq_sta_reg e.local_amp (calculte_n e.local_amp e.remote_amp)

-- `1 << (medp->read_ch * 2)`; the core shifts by the low five bits.
abbrev pub irq_bit : MsgEndpoint → ℕ
irq_bit e = 2 ^ (e.read_ch * 2 % 32)

-- `read_ch >= 0`
abbrev pub reads : MsgEndpoint → Bool
reads e = ltb e.read_ch sign_bit

abbrev pub is_at : Option ℕ → ℕ → Bool
is_at none p = false
is_at (some q) p = q == p

abbrev pub set_next : (ℕ → MsgEndpoint) → ℕ → Option ℕ → ℕ → MsgEndpoint
set_next ept t p = update ept t (record (ept t) { next = p })

-- E907_MBOX_E907_IRQn
abbrev pub mbox_irqn : ℕ
mbox_irqn = 144

abbrev pub address_of : Option ℕ → ℕ
address_of none = 0
address_of (some p) = p

-- `handler` is the number of `irq_msgbox_handler`.
unfoldable pub hal_msgbox_init : {V : Type 0} → (V → ℕ → V) → ℕ → Irqs V → Option ℕ → ℕ × Irqs V
unfolding enable_irq arch_request_irq
hal_msgbox_init csi_vic_enable_irq handler s it_edp =
    let (_, requested) = arch_request_irq s mbox_irqn (function handler) (address_of it_edp) in
    (0, enable_irq csi_vic_enable_irq requested mbox_irqn)

-- the walk of `hal_msgbox_alloc_channel` to the last endpoint
unfoldable pub append_walk : ℕ → (ℕ → MsgEndpoint) → ℕ → ℕ → Run (ℕ → MsgEndpoint)
append_walk zero ept t edp = out_of_fuel
append_walk (suc fuel) ept t edp = elim (ept t).next [
  | none ↦ ok (set_next ept t (some edp))
  | some u ↦ append_walk fuel ept u edp
]

-- the first walk of `hal_msgbox_free_channel`
unfoldable pub unlink_walk : ℕ → (ℕ → MsgEndpoint) → Option ℕ → ℕ → Run (ℕ → MsgEndpoint)
unlink_walk zero ept t edp = out_of_fuel
unlink_walk (suc fuel) ept none edp = ok ept
unlink_walk (suc fuel) ept (some t) edp = elim (is_at (ept t).next edp) [
  | true ↦ ok (set_next ept t (ept edp).next)
  | false ↦ unlink_walk fuel ept (ept t).next edp
]

-- Its second loop, which does not move on: `rev_int`.
unfoldable pub reader_loop : ℕ → (ℕ → MsgEndpoint) → Option ℕ → Run Bool
reader_loop zero ept t = out_of_fuel
reader_loop (suc fuel) ept none = ok false
reader_loop (suc fuel) ept (some t) = elim (reads (ept t)) [
  | true ↦ ok true
  | false ↦ reader_loop fuel ept (some t)
]

-- A read of a register can change the registers.
module _ {R : Type 0} (read32 : ℕ → R → ℕ × R) (write32 : ℕ → ℕ → R → R) where
  unfoldable pub msgbox_enable_rec_int : MsgEndpoint → R → R
  msgbox_enable_rec_int medp r =
      let (old, r') = read32 (irq_enable medp) r in
      write32 (irq_enable medp) (bit_or old (irq_bit medp)) r'

  unfoldable pub msgbox_disable_rec_int : MsgEndpoint → R → R
  msgbox_disable_rec_int medp r =
      let (old, r') = read32 (irq_enable medp) r in
      write32 (irq_enable medp) (bit_and old (u32 - 1 - irq_bit medp)) r'

  -- with the list as it is after the walk
  unfoldable pub hal_msgbox_alloc_channel :
      {D : Type 0} → ℕ → Msgbox R D → ℕ → ℕ → ℕ → ℕ → Run (ℕ × Msgbox R D)
  unfolding append_walk msgbox_enable_rec_int
  hal_msgbox_alloc_channel fuel s edp remote read write =
      let ept = update s.ept edp (record (s.ept edp) {
        local_amp = this_msgbox_use;
        remote_amp = remote;
        read_ch = read;
        write_ch = write;
      }) in
      let (start, walked) = (elim s.it_edp as (λ _. Option ℕ × Run (ℕ → MsgEndpoint)) [
        | none ↦ (some edp, ok ept)
        | some t ↦ (some t, append_walk fuel ept t edp)
      ]) in
      walked >>= λ linked.
      let ept' = set_next linked edp none in
      ok (
        0,
        record s {
          it_edp = start;
          ept = ept';
          regs = if ltb read sign_bit then msgbox_enable_rec_int (ept' edp) s.regs else s.regs;
        },
      )

  unfoldable pub hal_msgbox_free_channel : {D : Type 0} → ℕ → Msgbox R D → ℕ → Run (Msgbox R D)
  unfolding unlink_walk reader_loop msgbox_disable_rec_int
  hal_msgbox_free_channel fuel s edp =
      let first = is_at s.it_edp edp in
      let start = if first then (s.ept edp).next else s.it_edp in
      (if first then ok s.ept else unlink_walk fuel s.ept s.it_edp edp) >>= λ unlinked.
      let ept = set_next unlinked edp none in
      reader_loop fuel ept start >>= λ rev_int. ok (record s {
        it_edp = start;
        ept = ept;
        regs = if rev_int then s.regs else msgbox_disable_rec_int (ept edp) s.regs;
      })

  -- the wait for room, and the write
  unfoldable pub msgbox_channel_send_data : ℕ → MsgEndpoint → ℕ → R → Run R
  msgbox_channel_send_data zero medp word r = out_of_fuel
  msgbox_channel_send_data (suc fuel) medp word r =
      let (n, r') = read32 (write_status medp) r in
      elim (n == max_queue) [
        | true ↦ msgbox_channel_send_data fuel medp word r'
        | false ↦ ok (write32 (write_reg medp) word r')
      ]

  -- the loop of `hal_msgbox_channel_send` from the byte `i` of `len` on
  unfoldable pub send_loop : ℕ → MsgEndpoint → List ℕ → ℕ → ℕ → ℕ → R → Run R
  unfolding msgbox_channel_send_data
  send_loop fuel medp [] i len word r = ok r
  send_loop fuel medp (b ∷ bf) i len word r =
      let here = bit_or (if i % 4 == 0 then 0 else word) (b * 2 ^ (i % 4 * 8) % u32) in
      elim ((i % 4 == 3) || (i == len - 1)) as (λ _. Run R) [
        | true ↦ msgbox_channel_send_data fuel medp here r >>= λ r'.
            send_loop fuel medp bf (suc i) len here r'
        | false ↦ send_loop fuel medp bf (suc i) len here r
      ]

  -- `bf` is the buffer of `len` bytes; it returns 0.
  unfoldable pub hal_msgbox_channel_send : ℕ → MsgEndpoint → List ℕ → ℕ → R → Run R
  unfolding send_loop
  hal_msgbox_channel_send fuel medp bf len r = send_loop fuel medp bf 0 len 0 r

  -- `receive` is what the callback of an endpoint does with a word; it may change anything.
  module _ {D : Type 0} (receive : ℕ → ℕ → Msgbox R D → Msgbox R D) where
    -- The loop of `irq_msgbox_channel_handler`; the two registers have been computed before.
    unfoldable pub drain_loop : ℕ → ℕ → ℕ → ℕ → Msgbox R D → Run (Msgbox R D)
    drain_loop zero sts reg medp s = out_of_fuel
    drain_loop (suc fuel) sts reg medp s =
        let (n, r) = read32 sts s.regs in
        elim (n == 0) as (λ _. Run (Msgbox R D)) [
          | true ↦ ok (record s { regs = r })
          | false ↦
              let (word, r') = read32 reg r in
              let s' = record s { regs = r' } in
              drain_loop fuel sts reg medp
                (if (s.ept medp).receive then receive word medp s' else s')
        ]

    unfoldable pub irq_msgbox_channel_handler : ℕ → ℕ → Msgbox R D → Run (Msgbox R D)
    unfolding drain_loop
    irq_msgbox_channel_handler fuel medp s =
        let e = s.ept medp in
        drain_loop fuel (read_status e) (read_reg e) medp s >>= λ s'.
        ok (record s' { regs = write32 (irq_status e) (irq_bit (s'.ept medp)) s'.regs })

    -- the loop of `irq_msgbox_handler`
    unfoldable pub handler_loop : ℕ → Option ℕ → Msgbox R D → Run (Msgbox R D)
    unfolding irq_msgbox_channel_handler
    handler_loop zero t s = out_of_fuel
    handler_loop (suc fuel) none s = ok s
    handler_loop (suc fuel) (some t) s =
        irq_msgbox_channel_handler (suc fuel) t s >>= λ s'. handler_loop fuel (s'.ept t).next s'

    unfoldable pub irq_msgbox_handler : ℕ → Msgbox R D → Run (Msgbox R D)
    unfolding handler_loop
    irq_msgbox_handler fuel s = handler_loop fuel s.it_edp s
