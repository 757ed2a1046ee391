-- ===== src/Board/Mailbox/Drain.antt =====
-- irq_msgbox_channel_handler of sunxi_mailbox.c: the words that wait for a channel.
use v85x_openamp.Base.{
  ℕ, zero, suc, ◌<◌, ◌≡◌, refl, sym, ap, ◌∙◌, true, false, List, [], ◌∷◌, ◌++◌, arith, length, ◌==◌,
}
use mathlib.Core.List.{append-nil, append_assoc}
use v85x_openamp.Virtqueue.State.{ok}
use v85x_openamp.Board.Mailbox.{
  Msgbox, read_status, read_reg, irq_status, irq_bit, drain_loop, irq_msgbox_channel_handler,
}

-- What the mailbox does: the status is the number of the words that wait, and a read of the data takes
-- the first of them.
pub record Inbox {R : Type 0} (read32 : ℕ → R → ℕ × R) (write32 : ℕ → ℕ → R → R) (sts reg irq : ℕ)
    : Type 0 where
  pub waiting : R → List ℕ
  pub counts : (r : R) → (read32 sts r).0 ≡ length (waiting r)
  pub count_keeps : (r : R) → waiting (read32 sts r).1 ≡ waiting r
  pub takes :
      (r : R) (w : ℕ) (ws : List ℕ)
      → waiting r ≡ w ∷ ws
      → ((read32 reg r).0 ≡ w) × (waiting (read32 reg r).1 ≡ ws)
  pub answer_keeps : (r : R) (bits : ℕ) → waiting (write32 irq bits r) ≡ waiting r

-- What the callback of a channel does: it hears a word, takes none of those that wait for the channel, and
-- leaves the callback of the channel in place. It may send words, and change anything else.
pub record Listens {R D : Type 0} (receive : ℕ → ℕ → Msgbox R D → Msgbox R D) (waiting : R → List ℕ)
    : Type 0 where
  pub heard : D → List ℕ
  pub hears : (w p : ℕ) (s : Msgbox R D) → heard (receive w p s).clients ≡ heard s.clients ++ w ∷ []
  pub keeps_waiting : (w p : ℕ) (s : Msgbox R D) → waiting (receive w p s).regs ≡ waiting s.regs
  pub keeps_callback :
      (w p : ℕ) (s : Msgbox R D) → ((receive w p s).ept p).receive ≡ (s.ept p).receive

module _ {R D : Type 0} (read32 : ℕ → R → ℕ × R) (write32 : ℕ → ℕ → R → R)
    (receive : ℕ → ℕ → Msgbox R D → Msgbox R D) where
  drain_loop_lem :
      (ws : List ℕ) (fuel sts reg irq medp : ℕ) (box : Inbox read32 write32 sts reg irq)
      (ear : Listens receive box.waiting) (s : Msgbox R D)
      → (s.ept medp).receive ≡ true
      → box.waiting s.regs ≡ ws
      → length ws < fuel
      → (s' : Msgbox R D) × (drain_loop read32 write32 receive fuel sts reg medp s ≡ ok s')
        × (ear.heard s'.clients ≡ ear.heard s.clients ++ ws)
        × (box.waiting s'.regs ≡ [])
  unfolding drain_loop
  drain_loop_lem ws zero sts reg irq medp box ear s listening full enough =
      absurd (omega (arith, enough))
  drain_loop_lem [] (suc fuel) sts reg irq medp box ear s listening full enough =
      let r = (read32 sts s.regs).1 in
      let empty : ((read32 sts s.regs).0 == 0) ≡ true = rw (box.counts s.regs, full) refl in
      (
        record s { regs = r },
        rw (drain_loop, empty) refl,
        sym (append-nil (ear.heard s.clients)),
        box.count_keeps s.regs ∙ full,
      )
  drain_loop_lem (w ∷ ws) (suc fuel) sts reg irq medp box ear s listening full enough =
      let r = (read32 sts s.regs).1 in
      let some_left : ((read32 sts s.regs).0 == 0) ≡ false =
        rw (box.counts s.regs, full) (ground arith) in
      let (word, left) = box.takes r w ws (box.count_keeps s.regs ∙ full) in
      let s1 = record s { regs = (read32 reg r).1 } in
      let s2 = receive w medp s1 in
      let (s', rest, told, done) =
        drain_loop_lem ws fuel sts reg irq medp box ear s2
          (ear.keeps_callback w medp s1 ∙ listening) (ear.keeps_waiting w medp s1 ∙ left)
          (omega (arith, enough)) in
      (
        s',
        rw (drain_loop, some_left, word, listening) rest,
        told
            ∙ ap (λ xs. xs ++ ws) (ear.hears w medp s1)
            ∙ append_assoc (ear.heard s.clients) (w ∷ []) ws,
        done,
      )

  -- Where a channel has a callback, each read of its status tells how many words wait for it, a read of
  -- its data takes the first of them, no new word comes meanwhile, and the callback neither takes words
  -- that wait for the channel nor changes whether it has a callback, but may send words and do anything
  -- else: the handler returns, the callback has heard the words that waited, each once and in order, and
  -- none waits any more.
  pub irq_msgbox_channel_handler-heard :
      (fuel medp : ℕ) (s : Msgbox R D)
      (box : Inbox read32 write32
        (read_status (s.ept medp))
        (read_reg (s.ept medp))
        (irq_status (s.ept medp)))
      (ear : Listens receive box.waiting)
      → (s.ept medp).receive ≡ true
      → length (box.waiting s.regs) < fuel
      → (s' : Msgbox R D) × (irq_msgbox_channel_handler read32 write32 receive fuel medp s ≡ ok s')
        × (ear.heard s'.clients ≡ ear.heard s.clients ++ box.waiting s.regs)
        × (box.waiting s'.regs ≡ [])
  unfolding irq_msgbox_channel_handler
  irq_msgbox_channel_handler-heard fuel medp s box ear listening enough =
      let e = s.ept medp in
      let (s1, call, told, done) =
        drain_loop_lem (box.waiting s.regs) fuel (read_status e) (read_reg e) (irq_status e) medp
          box ear s listening refl enough in
      (
        record s1 { regs = write32 (irq_status e) (irq_bit (s1.ept medp)) s1.regs },
        rw (irq_msgbox_channel_handler, call) refl,
        told,
        box.answer_keeps s1.regs _ ∙ done,
      )
