-- ===== src/Base/Fields.antt =====
-- A field of a register: `val & ~(mask << s) | (c << s)` in 32 bits.
use native.Mathlib.Nat.{pow-suc, one-le-pow, mul_assoc, pow-le-pow_right, mod-eq_of_lt}
use Prim.Native.Nat.{ℕ, zero, suc, ◌+◌, ◌-◌, ◌*◌, ◌/◌, ◌%◌, ◌^◌, ◌≤◌, ◌<◌, max, bit_and, bit_or}
use mathlib.Core.Path.{◌≡◌, ap, sym, ◌∙◌}
use mathlib.Core.Logic.{◌⊎◌}
use mathlib.Core.Bool.{◌&&◌}
use native.Mathlib.Omega.{arith}
use v85x_openamp.Base.Tests.{ltb, leb, if◌then◌else◌}
use v85x_openamp.Base.Digits.{
  digit, digit-le, digit-bit_and, digit-bit_or, digit_complement, digit_shift, digit_mask, field,
  field_ext, field_low,
}

-- `c << s` fits
pub shift-lt : (s k w c : ℕ) → c < 2 ^ k → k + s ≤ w → c * 2 ^ s < 2 ^ w
shift-lt zero k w c small fits =
    omega
      (arith, pow-le-pow_right {n = 2} (omega arith) {i = k} {j = w} (omega (arith, fits)), small)
shift-lt (suc s) k zero c small fits = absurd (omega (arith, fits))
shift-lt (suc s) k (suc w) c small fits =
    let double : c * 2 ^ suc s ≡ c * 2 ^ s * 2 = rw (pow-suc 2 s) (sym (mul_assoc c (2 ^ s) 2)) in
    omega (arith, double, shift-lt s k w c small (omega (arith, fits)), pow-suc 2 w)

digit_small : (k c j : ℕ) → c < 2 ^ k → k ≤ j → digit c j ≡ 0
unfolding digit
digit_small zero c zero small above = omega (arith, small)
digit_small zero c (suc j) small above =
    digit_small zero (c / 2) j (omega (arith, small)) (omega arith)
digit_small (suc k) c zero small above = absurd (omega (arith, above))
digit_small (suc k) c (suc j) small above =
    digit_small k (c / 2) j (omega (arith, small, pow-suc 2 k)) (omega (arith, above))

-- the digit of a field of `k` digits at `s` that is moved there
shifted :
    (k s c i : ℕ)
    → c < 2 ^ k
    → k + s ≤ 32
    → digit (c * 2 ^ s % 2 ^ 32) i ≡ (if leb s i && ltb i (s + k) then digit c (i - s) else 0)
shifted k s c i small fits =
    let same : c * 2 ^ s % 2 ^ 32 ≡ c * 2 ^ s = omega (arith, shift-lt s k 32 c small fits) in
    ap (λ t. digit t i) same ∙ ground (arith, digit_shift c s i, above)
  where
    above : s + k ≤ i → digit c (i - s) ≡ 0
    above h = digit_small k c (i - s) small (omega (arith, h))

-- the value of a field is replaced
pub digit_replace :
    (k s x c i : ℕ)
    → c < 2 ^ k
    → k + s ≤ 32
    → i < 32
    → digit (bit_or (bit_and x (2 ^ 32 - 1 - (2 ^ k - 1) * 2 ^ s % 2 ^ 32)) (c * 2 ^ s % 2 ^ 32)) i
      ≡ (if leb s i && ltb i (s + k) then digit c (i - s) else digit x i)
digit_replace k s x c i small fits word =
    let mask = (2 ^ k - 1) * 2 ^ s % 2 ^ 32 in
    let full : 2 ^ k - 1 < 2 ^ k = omega (arith, one-le-pow k 2) in
    ground (
      arith,
      digit-bit_or (bit_and x (2 ^ 32 - 1 - mask)) (c * 2 ^ s % 2 ^ 32) i,
      digit-bit_and x (2 ^ 32 - 1 - mask) i,
      digit_complement 32 mask i (omega arith) word,
      shifted k s (2 ^ k - 1) i full fits,
      digit_mask k (i - s),
      shifted k s c i small fits,
      digit-le x i,
      digit-le c (i - s),
    )

-- a value is set in a field, and only its own digits are cleared before
pub digit_set :
    (k s x c i : ℕ)
    → c < 2 ^ k
    → k + s ≤ 32
    → i < 32
    → digit (bit_or (bit_and x (2 ^ 32 - 1 - c * 2 ^ s % 2 ^ 32)) (c * 2 ^ s % 2 ^ 32)) i
      ≡ (if leb s i && ltb i (s + k) then max (digit x i) (digit c (i - s)) else digit x i)
digit_set k s x c i small fits word =
    let mask = c * 2 ^ s % 2 ^ 32 in
    ground (
      arith,
      digit-bit_or (bit_and x (2 ^ 32 - 1 - mask)) mask i,
      digit-bit_and x (2 ^ 32 - 1 - mask) i,
      digit_complement 32 mask i (omega arith) word,
      shifted k s c i small fits,
      digit-le x i,
      digit-le c (i - s),
    )

-- the field itself, and one beside it
pub field_replaced :
    (k s x c : ℕ)
    → c < 2 ^ k
    → k + s ≤ 32
    → field
        (bit_or (bit_and x (2 ^ 32 - 1 - (2 ^ k - 1) * 2 ^ s % 2 ^ 32)) (c * 2 ^ s % 2 ^ 32))
        s
        k
      ≡ c
field_replaced k s x c small fits =
    field_ext k _ s c 0 (λ j h.
      let back : s + j - s ≡ 0 + j = omega arith in
      ground (
        arith,
        digit_replace k s x c (s + j) small fits (omega (arith, h, fits)),
        h,
        ap (digit c) back,
      ))
    ∙ field_low k c
    ∙ mod-eq_of_lt small

pub field_beside :
    (k s t n x c : ℕ)
    → c < 2 ^ k
    → k + s ≤ 32
    → n + t ≤ 32
    → (t + n ≤ s) ⊎ (s + k ≤ t)
    → field
        (bit_or (bit_and x (2 ^ 32 - 1 - (2 ^ k - 1) * 2 ^ s % 2 ^ 32)) (c * 2 ^ s % 2 ^ 32))
        t
        n
      ≡ field x t n
field_beside k s t n x c small fits inside apart = field_ext n _ t x t (λ j h.
    ground (arith, digit_replace k s x c (t + j) small fits (omega (arith, h, inside)), h, apart))
