-- ===== src/Board/Gpio/Pins.antt =====
-- What the calls of sunxi_gpio.c do to each pin.
use v85x_openamp.Base.{
  ℕ, ◌+◌, ◌*◌, ◌%◌, ◌^◌, ◌<◌, ◌≡◌, refl, ap, ◌∙◌, if◌then◌else◌, ◌==◌, bit_and, arith, Bool-cases,
  inl, inr,
}
use Prim.Native.Nat.{max}
use v85x_openamp.Base.Digits.{digit, field}
use v85x_openamp.Virtqueue.State.{u32}
use v85x_openamp.Board.Gpio.{
  Pull, pin_num, cfg_addr, dat_addr, pul_addr, modify, pull_bits, sunxi_gpio_init,
  sunxi_gpio_set_value, sunxi_gpio_read, sunxi_gpio_set_pull,
}
use v85x_openamp.Board.Gpio.Words.{
  pins, cfg_addr_inj, pul_addr_inj, dat_addr_inj, mux_word, level_word, pull_word, read_word,
}

-- Registers that keep what is written to them.
pub record Storage {R : Type 0} (read32 : ℕ → R → ℕ × R) (write32 : ℕ → ℕ → R → R) : Type 0 where
  pub holds : R → ℕ → ℕ
  pub reads : (a : ℕ) (r : R) → (read32 a r).0 ≡ holds r a
  pub read_keeps : (a b : ℕ) (r : R) → holds (read32 a r).1 b ≡ holds r b
  pub writes :
      (a w : ℕ) (r : R) (b : ℕ) → holds (write32 a w r) b ≡ (if a == b then w else holds r b)

module _ {R : Type 0} (read32 : ℕ → R → ℕ × R) (write32 : ℕ → ℕ → R → R)
    (regs : Storage read32 write32) where
  stored :
      (f : ℕ → ℕ) (a b : ℕ) (r : R)
      → regs.holds (write32 a (f (read32 a r).0) (read32 a r).1) b
        ≡ (if a == b then f (regs.holds r a) else regs.holds r b)
  stored f a b r = regs.writes a _ _ b ∙ rw (regs.reads a r, regs.read_keeps a b r) refl

  -- the function that a pin is given to
  abbrev pub mux : R → ℕ → ℕ
  mux r q = field (regs.holds r (cfg_addr q)) (q % 8 * 4) 4

  -- the level of a pin
  abbrev pub level : R → ℕ → ℕ
  level r q = digit (regs.holds r (dat_addr q)) (q % 32)

  -- the two bits for the pull of a pin, that for up first
  abbrev pub pull_bit : R → ℕ → ℕ → ℕ
  pull_bit r q d = digit (regs.holds r (pul_addr q)) (q % 16 * 2 + d)

  -- A pin is given to the function that is asked for, and no other pin of the nine ports is.
  pub sunxi_gpio_init-mux :
      (p q cfg : ℕ) (r : R)
      → p < pins
      → q < pins
      → mux (sunxi_gpio_init read32 write32 p cfg r) q ≡ (if p == q then cfg % 16 else mux r q)
  unfolding sunxi_gpio_init
  sunxi_gpio_init-mux p q cfg r hp hq =
      let a = cfg_addr p in
      let shift = bit_and (pin_num p) 7 * 4 in
      let f = λ (val : ℕ). modify val (15 * 2 ^ shift % u32) (bit_and cfg 15 * 2 ^ shift % u32) in
      ap (λ w. field w (q % 8 * 4) 4) (stored f a (cfg_addr q) r)
      ∙ elim (Bool-cases (a == cfg_addr q)) [
        | inl here ↦
            let at : a ≡ cfg_addr q = ground (arith, here) in
            rw here (
              mux_word (regs.holds r a) p q cfg
              ∙ ground (arith, cfg_addr_inj p q hp hq at, ap (regs.holds r) at))
        | inr other ↦ rw other (ground (arith, other))
      ]

  read-level : (q : ℕ) (r : R) → (sunxi_gpio_read read32 write32 q r).0 ≡ level r q
  unfolding sunxi_gpio_read
  read-level q r =
      rw (sunxi_gpio_read, regs.reads (dat_addr q) r) (read_word (regs.holds r (dat_addr q)) q)

  -- A pin is set to the level that is asked for, no other pin of the nine ports is, and the level of
  -- each pin is what is read of it.
  pub sunxi_gpio_set_value-read :
      (p q value : ℕ) (r : R)
      → p < pins
      → q < pins
      → (sunxi_gpio_read read32 write32 q (sunxi_gpio_set_value read32 write32 p value r)).0
        ≡ (if p == q then (if value == 0 then 0 else 1) else (sunxi_gpio_read read32 write32 q r).0)
  unfolding sunxi_gpio_set_value sunxi_gpio_read
  sunxi_gpio_set_value-read p q value r hp hq =
      let a = dat_addr p in
      let set : ℕ = if value == 0 then 0 else 1 in
      let f = λ (val : ℕ). modify val (1 * 2 ^ pin_num p % u32) (set * 2 ^ pin_num p % u32) in
      read-level q (sunxi_gpio_set_value read32 write32 p value r)
      ∙ ap (λ w. digit w (q % 32)) (stored f a (dat_addr q) r)
      ∙ elim (Bool-cases (a == dat_addr q)) [
        | inl here ↦
            let at : a ≡ dat_addr q = ground (arith, here) in
            rw (here, read-level q r)
              (level_word (regs.holds r a) p q value
                ∙ ground (arith, dat_addr_inj p q hp hq at, ap (regs.holds r) at))
        | inr other ↦ rw (other, read-level q r) (ground (arith, other))
      ]

  -- The pull of a pin is added to what its two bits hold: neither is cleared, also where no pull is
  -- asked for, and no other pin of the nine ports changes.
  pub sunxi_gpio_set_pull-adds :
      (p q d : ℕ) (pull : Pull) (r : R)
      → p < pins
      → q < pins
      → d < 2
      → pull_bit (sunxi_gpio_set_pull read32 write32 p pull r) q d
        ≡ (if p == q then max (pull_bit r q d) (digit (pull_bits pull) d) else pull_bit r q d)
  unfolding sunxi_gpio_set_pull
  sunxi_gpio_set_pull-adds p q d pull r hp hq hd =
      let a = pul_addr p in
      let i = q % 16 * 2 + d in
      let v = pull_bits pull * 2 ^ (bit_and (pin_num p) 15 * 2) % u32 in
      let f = λ (val : ℕ). modify val v v in
      ap (λ w. digit w i) (stored f a (pul_addr q) r) ∙ elim (Bool-cases (a == pul_addr q)) [
        | inl here ↦
            let at : a ≡ pul_addr q = ground (arith, here) in
            rw here (
              pull_word (regs.holds r a) p q d pull hd
              ∙ ground (arith, pul_addr_inj p q hp hq at, ap (regs.holds r) at))
        | inr other ↦ rw other (ground (arith, other))
      ]
