-- ===== src/Base/Digits.antt =====
-- The binary digits of a number, and what masks and shifts do to each.
use native.Mathlib.Nat.{pow-suc, one-le-pow, mul_assoc}
use Prim.Native.Nat.{
  ℕ, zero, suc, ◌+◌, ◌-◌, ◌*◌, ◌/◌, ◌%◌, ◌^◌, ◌≤◌, ◌<◌, min, max, bit_and, bit_or,
}
use mathlib.Core.Path.{◌≡◌, refl, ap, sym, ◌∙◌}
use native.Mathlib.Omega.{arith}
use v85x_openamp.Base.Tests.{ltb, if◌then◌else◌}
use v85x_openamp.Base.Bits.{bit_and_mask, bit_and-halves, bit_or-halves, double-mod}

-- the digit `i`, the lowest first
unfoldable pub digit : ℕ → ℕ → ℕ
digit x zero = x % 2
digit x (suc i) = digit (x / 2) i

pub digit-le : (x i : ℕ) → digit x i ≤ 1
unfolding digit
digit-le x zero = omega arith
digit-le x (suc i) = digit-le (x / 2) i

zero-digit : (i : ℕ) → digit 0 i ≡ 0
unfolding digit
zero-digit zero = refl
zero-digit (suc i) = zero-digit i

pub digit-bit_and : (a b i : ℕ) → digit (bit_and a b) i ≡ min (digit a i) (digit b i)
unfolding digit
digit-bit_and a b zero = omega (arith, bit_and-halves a b)
digit-bit_and a b (suc i) =
    let half : bit_and a b / 2 ≡ bit_and (a / 2) (b / 2) = omega (arith, bit_and-halves a b) in
    ap (λ t. digit t i) half ∙ digit-bit_and (a / 2) (b / 2) i

pub digit-bit_or : (a b i : ℕ) → digit (bit_or a b) i ≡ max (digit a i) (digit b i)
unfolding digit
digit-bit_or a b zero = omega (arith, bit_or-halves a b)
digit-bit_or a b (suc i) =
    let half : bit_or a b / 2 ≡ bit_or (a / 2) (b / 2) = omega (arith, bit_or-halves a b) in
    ap (λ t. digit t i) half ∙ digit-bit_or (a / 2) (b / 2) i

-- `~x` in a word of `w` bits
pub digit_complement : (w x i : ℕ) → x < 2 ^ w → i < w → digit (2 ^ w - 1 - x) i ≡ 1 - digit x i
unfolding digit
digit_complement zero x i fits below = absurd (omega arith)
digit_complement (suc w) x zero fits below = omega (arith, pow-suc 2 w, one-le-pow w 2, fits)
digit_complement (suc w) x (suc i) fits below =
    let half : (2 ^ suc w - 1 - x) / 2 ≡ 2 ^ w - 1 - x / 2 =
      omega (arith, pow-suc 2 w, one-le-pow w 2, fits) in
    ap (λ t. digit t i) half
    ∙ digit_complement w (x / 2) i (omega (arith, pow-suc 2 w, fits)) (omega arith)

-- `x << s`
pub digit_shift : (x s i : ℕ) → digit (x * 2 ^ s) i ≡ (if ltb i s then 0 else digit x (i - s))
unfolding digit
digit_shift x zero i =
    let same : x * 2 ^ 0 ≡ x = omega arith in ap (λ t. digit t i) same ∙ ground arith
digit_shift x (suc s) zero =
    let double : x * 2 ^ suc s ≡ x * 2 ^ s * 2 = rw (pow-suc 2 s) (sym (mul_assoc x (2 ^ s) 2)) in
    ground (arith, double)
digit_shift x (suc s) (suc i) =
    let double : x * 2 ^ suc s ≡ x * 2 ^ s * 2 = rw (pow-suc 2 s) (sym (mul_assoc x (2 ^ s) 2)) in
    let half : x * 2 ^ suc s / 2 ≡ x * 2 ^ s = omega (arith, double) in
    ap (λ t. digit t i) half ∙ ground (arith, digit_shift x s i)

-- `2 ^ k - 1`
pub digit_mask : (k i : ℕ) → digit (2 ^ k - 1) i ≡ (if ltb i k then 1 else 0)
unfolding digit
digit_mask zero i = ground (arith, zero-digit i)
digit_mask (suc k) zero = ground (arith, pow-suc 2 k, one-le-pow k 2)
digit_mask (suc k) (suc i) =
    let half : (2 ^ suc k - 1) / 2 ≡ 2 ^ k - 1 = omega (arith, pow-suc 2 k, one-le-pow k 2) in
    ap (λ t. digit t i) half ∙ ground (arith, digit_mask k i)

-- the `k` digits from `s` on, as a number
unfoldable pub field : ℕ → ℕ → ℕ → ℕ
unfolding digit
field x s zero = 0
field x s (suc k) = digit x s + 2 * field x (suc s) k

pub field_ext :
    (k x s y t : ℕ)
    → ((j : ℕ) → j < k → digit x (s + j) ≡ digit y (t + j))
    → field x s k ≡ field y t k
unfolding field
field_ext zero x s y t same = refl
field_ext (suc k) x s y t same =
    let at : (a : ℕ) → a ≡ a + 0 = λ a. omega arith in
    let first : digit x s ≡ digit y t =
      ap (digit x) (at s) ∙ same 0 (omega arith) ∙ sym (ap (digit y) (at t)) in
    let next : (a j : ℕ) → suc a + j ≡ a + suc j = λ a j. omega arith in
    let rest = field_ext k x (suc s) y (suc t) (λ j h.
      ap (digit x) (next s j) ∙ same (suc j) (omega (arith, h)) ∙ sym (ap (digit y) (next t j))) in
    omega (arith, first, rest)

field-half : (k x s : ℕ) → field x (suc s) k ≡ field (x / 2) s k
unfolding field digit
field-half zero x s = refl
field-half (suc k) x s = omega (arith, field-half k x (suc s))

-- the lowest `k` digits
pub field_low : (k x : ℕ) → field x 0 k ≡ x % 2 ^ k
unfolding field digit
field_low zero x = omega arith
field_low (suc k) x = ground (
  arith,
  field-half k x 0,
  field_low k (x / 2),
  pow-suc 2 k,
  one-le-pow k 2,
  double-mod x (2 ^ k) (omega (arith, one-le-pow k 2)),
)

-- `x & (1 << s)`
pub bit_and-power : (s x : ℕ) → bit_and x (2 ^ s) ≡ digit x s * 2 ^ s
unfolding digit
bit_and-power zero x = omega (arith, bit_and_mask 1 x)
bit_and-power (suc s) x =
    let half : 2 ^ suc s / 2 ≡ 2 ^ s = omega (arith, pow-suc 2 s) in
    let even : 2 ^ suc s % 2 ≡ 0 = omega (arith, pow-suc 2 s) in
    let double : digit (x / 2) s * 2 ^ suc s ≡ digit (x / 2) s * 2 ^ s * 2 =
      rw (pow-suc 2 s) (sym (mul_assoc (digit (x / 2) s) (2 ^ s) 2)) in
    omega (
      arith,
      bit_and-halves x (2 ^ suc s),
      ap (bit_and (x / 2)) half,
      even,
      double,
      bit_and-power s (x / 2),
    )
