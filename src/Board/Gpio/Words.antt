-- ===== src/Board/Gpio/Words.antt =====
-- The registers of the pins of sunxi_gpio.c: their addresses, and the fields of a word.
use v85x_openamp.Base.{
  ℕ, zero, suc, ◌+◌, ◌-◌, ◌*◌, ◌/◌, ◌%◌, ◌^◌, ◌≤◌, ◌<◌, ◌≡◌, ◌∙◌, true, false, ◌&&◌, if◌then◌else◌,
  ltb, leb, ◌==◌, bit_and, arith, Bool-cases, inl, inr, ◌⊎◌,
}
use Prim.Native.Nat.{max}
use native.Mathlib.Nat.{one-le-pow}
use v85x_openamp.Base.Bits.{bit_and_mask, pow-lt-pow}
use v85x_openamp.Base.Digits.{digit, digit-le, bit_and-power, field}
use v85x_openamp.Base.Fields.{digit_replace, digit_set, field_replaced, field_beside}
use v85x_openamp.Virtqueue.State.{u32}
use v85x_openamp.Board.Gpio.{
  Pull, up, down, none_, port_base_get, pin_num, cfg_addr, dat_addr, pul_addr, modify, pull_bits,
}

-- 9 ports of 32 pins
abbrev pub pins : ℕ
pins = 288

pin_num_lem : (pin : ℕ) → pin_num pin ≡ pin % 32
unfolding pin_num
pin_num_lem pin = bit_and_mask 5 pin

port_base_get_lem : (pin : ℕ) → pin < pins → port_base_get pin ≡ 0x02000000 + 48 * (pin / 32)
unfolding port_base_get
port_base_get_lem pin h = ground (arith, h)

slot8 : (pin : ℕ) → bit_and (pin_num pin) 7 ≡ pin % 8
slot8 pin = bit_and_mask 3 (pin_num pin) ∙ omega (arith, pin_num_lem pin)

slot16 : (pin : ℕ) → bit_and (pin_num pin) 15 ≡ pin % 16
slot16 pin = bit_and_mask 4 (pin_num pin) ∙ omega (arith, pin_num_lem pin)

-- A pin is its register and its slot there.
pub cfg_addr_inj : (p q : ℕ) → p < pins → q < pins → cfg_addr p ≡ cfg_addr q → p % 8 ≡ q % 8 → p ≡ q
cfg_addr_inj p q hp hq e slot = omega (
  arith,
  hp,
  hq,
  e,
  slot,
  pin_num_lem p,
  pin_num_lem q,
  port_base_get_lem p hp,
  port_base_get_lem q hq,
)

pub pul_addr_inj :
    (p q : ℕ) → p < pins → q < pins → pul_addr p ≡ pul_addr q → p % 16 ≡ q % 16 → p ≡ q
pul_addr_inj p q hp hq e slot = omega (
  arith,
  hp,
  hq,
  e,
  slot,
  pin_num_lem p,
  pin_num_lem q,
  port_base_get_lem p hp,
  port_base_get_lem q hq,
)

pub dat_addr_inj :
    (p q : ℕ) → p < pins → q < pins → dat_addr p ≡ dat_addr q → p % 32 ≡ q % 32 → p ≡ q
dat_addr_inj p q hp hq e slot =
    omega (arith, hp, hq, e, slot, port_base_get_lem p hp, port_base_get_lem q hq)

-- the function of the pin `q` in a word that the pin `p` is set in
pub mux_word :
    (x p q cfg : ℕ)
    → field
        (modify x
          (15 * 2 ^ (bit_and (pin_num p) 7 * 4) % u32)
          (bit_and cfg 15 * 2 ^ (bit_and (pin_num p) 7 * 4) % u32))
        (q % 8 * 4)
        4
      ≡ (if p % 8 == q % 8 then cfg % 16 else field x (q % 8 * 4) 4)
mux_word x p q cfg =
    rw (slot8 p, bit_and_mask 4 cfg)
      (elim (Bool-cases (p % 8 == q % 8)) [
        | inl same ↦
            let at : q % 8 ≡ p % 8 = ground (arith, same) in
            rw (same, at) (field_replaced 4 (p % 8 * 4) x (cfg % 16) (omega arith) (omega arith))
        | inr apart ↦ rw apart (
            field_beside 4 (p % 8 * 4) (q % 8 * 4) 4 x (cfg % 16) (omega arith) (omega arith)
              (omega arith) (ground (arith, apart)))
      ])

digit_one : (c j : ℕ) → c ≤ 1 → j ≡ 0 → digit c j ≡ c
unfolding digit
digit_one c zero h e = omega (arith, h)
digit_one c (suc j) h e = absurd (omega (arith, e))

pub level_word :
    (x p q value : ℕ)
    → let set : ℕ = if value == 0 then 0 else 1 in
      digit (modify x (1 * 2 ^ pin_num p % u32) (set * 2 ^ pin_num p % u32)) (q % 32)
      ≡ (if p % 32 == q % 32 then set else digit x (q % 32))
level_word x p q value = rw (pin_num_lem p) (elim (Bool-cases (value == 0)) [
  | inl off ↦ rw off (
      ground (
        arith,
        digit_replace 1 (p % 32) x 0 (q % 32) (omega arith) (omega arith) (omega arith),
        digit_one 0 (q % 32 - p % 32),
      ))
  | inr on ↦ rw on (
      ground (
        arith,
        digit_replace 1 (p % 32) x 1 (q % 32) (omega arith) (omega arith) (omega arith),
        digit_one 1 (q % 32 - p % 32),
      ))
])

pull_bits-lt : (v : Pull) → pull_bits v < 2 ^ 2
pull_bits-lt up = omega arith
pull_bits-lt down = omega arith
pull_bits-lt none_ = omega arith

-- the digit `d` of the pull of the pin `q` in a word that the pull of the pin `p` is set in
pub pull_word :
    (x p q d : ℕ) (pull : Pull)
    → d < 2
    → let v = pull_bits pull * 2 ^ (bit_and (pin_num p) 15 * 2) % u32 in
      digit (modify x v v) (q % 16 * 2 + d) ≡ (
        if p % 16 == q % 16
        then max (digit x (q % 16 * 2 + d)) (digit (pull_bits pull) d)
        else digit x (q % 16 * 2 + d))
pull_word x p q d pull hd =
    let s = p % 16 * 2 in
    let i = q % 16 * 2 + d in
    rw (slot16 p) (
      digit_set 2 s x (pull_bits pull) i (pull_bits-lt pull) (omega arith) (omega (arith, hd))
      ∙ inside (digit x i) (Bool-cases (p % 16 == q % 16)))
  where
    inside :
        (y : ℕ)
        → ((p % 16 == q % 16) ≡ true) ⊎ ((p % 16 == q % 16) ≡ false)
        → (if leb (p % 16 * 2) (q % 16 * 2 + d) && ltb (q % 16 * 2 + d) (p % 16 * 2 + 2)
            then max y (digit (pull_bits pull) (q % 16 * 2 + d - p % 16 * 2))
            else y)
          ≡ (if p % 16 == q % 16 then max y (digit (pull_bits pull) d) else y)
    inside y (inl same) =
        let back : q % 16 * 2 + d - p % 16 * 2 ≡ d = ground (arith, same) in
        rw (same, back) (ground (arith, hd, same))
    inside y (inr apart) = rw apart (ground (arith, hd, apart))

-- one pin read of a word
pub read_word :
    (x q : ℕ) → (if bit_and x (1 * 2 ^ pin_num q % u32) == 0 then 0 else 1) ≡ digit x (q % 32)
read_word x q =
    let fits : 1 * 2 ^ (q % 32) % u32 ≡ 2 ^ (q % 32) =
      omega (arith, pow-lt-pow (q % 32) 32 (omega arith)) in
    rw (pin_num_lem q, fits, bit_and-power (q % 32) x) (go (digit x (q % 32)) (digit-le x (q % 32)))
  where
    go : (d : ℕ) → d ≤ 1 → ◌≡◌ {A = ℕ} (if d * 2 ^ (q % 32) == 0 then 0 else 1) d
    go zero h = ground arith
    go (suc zero) h = ground (arith, one-le-pow (q % 32) 2)
    go (suc (suc d)) h = absurd (omega (arith, h))
