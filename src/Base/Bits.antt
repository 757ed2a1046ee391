-- ===== src/Base/Bits.antt =====
-- Masks: `&` with `2 ^ k - 1`, and the test `x & (x - 1)`.
use Prim.Native.Nat.{digits, bit_and-bitwise, bit_or-bitwise}
use mathlib.Core.WellFounded as WellFoundedLemmas
use mathlib.Core.WellFounded.{Acc, WellFounded}
use native.Mathlib.Nat.{pow-suc, one-le-pow}
use Prim.Native.Nat.{
  ℕ, zero, suc, ◌+◌, ◌-◌, ◌*◌, ◌/◌, ◌%◌, ◌^◌, ◌≤◌, ◌<◌, ◌∣◌, min, max, bit_and, bit_or,
}
use mathlib.Core.Path.{◌≡◌, refl}
use native.Mathlib.Omega.{arith}
use native.Mathlib.Decide.{dec_lt}
use mathlib.Core.Path.{ap, sym, ◌∙◌}
use native.Mathlib.Nat.{mod_self, pow-le-pow_right, add-zero, add-suc, mod-mod_of_dvd, mul_assoc}

below : (k n : ℕ) → n < k → Acc ◌<◌ n
below zero n h = elim h [ ]
below (suc k) n h = Acc.intro n (λ m hm. below k m (omega arith))

unfoldable pub lt_wf : WellFounded ◌<◌
unfolding below
lt_wf = record { apply = λ n. below (suc n) n (omega arith) }

-- The digit loop of `&`, with the digits left apart from the first number.
abbrev and_loop : ℕ → ℕ → ℕ → ℕ
and_loop n a b = digits (λ _. zero) min n a b

-- Any bound of the first number will do.
and_loop_bound : (n m a b : ℕ) → a ≤ n → a ≤ m → and_loop n a b ≡ and_loop m a b
and_loop_bound zero zero a b p q = refl
and_loop_bound zero (suc m) (suc a) b p q = absurd (omega arith)
and_loop_bound zero (suc m) zero b p q = refl
and_loop_bound (suc n) zero (suc a) b p q = absurd (omega arith)
and_loop_bound (suc n) zero zero b p q = refl
and_loop_bound (suc n) (suc m) zero b p q = refl
and_loop_bound (suc n) (suc m) (suc a) b p q =
    omega (arith, and_loop_bound n m (suc a / 2) (b / 2) (omega arith) (omega arith))

pub zero-bit_and : (b : ℕ) → bit_and 0 b ≡ 0
zero-bit_and b = bit_and-bitwise 0 b

-- The lowest digit apart from the rest.
pub bit_and-halves : (a b : ℕ) → bit_and a b ≡ bit_and (a / 2) (b / 2) * 2 + min (a % 2) (b % 2)
bit_and-halves zero b = omega (arith, zero-bit_and b, zero-bit_and (b / 2))
bit_and-halves (suc a) b = omega (
  arith,
  bit_and-bitwise (suc a) b,
  bit_and-bitwise (suc a / 2) (b / 2),
  and_loop_bound a (suc a / 2) (suc a / 2) (b / 2) (omega arith) (omega arith),
)

pub bit_and-zero : (a : ℕ) → bit_and a 0 ≡ 0
bit_and-zero a = WellFoundedLemmas.induction lt_wf {C = λ k. bit_and k 0 ≡ 0} a step
  where
    step : (n : ℕ) → ((m : ℕ) → m < n → bit_and m 0 ≡ 0) → bit_and n 0 ≡ 0
    step zero ih = zero-bit_and 0
    step (suc n) ih = omega (arith, bit_and-halves (suc n) 0, ih (suc n / 2) (omega arith))

pub bit_and_self : (a : ℕ) → bit_and a a ≡ a
bit_and_self a = WellFoundedLemmas.induction lt_wf {C = λ k. bit_and k k ≡ k} a step
  where
    step : (n : ℕ) → ((m : ℕ) → m < n → bit_and m m ≡ m) → bit_and n n ≡ n
    step zero ih = zero-bit_and 0
    step (suc n) ih = omega (arith, bit_and-halves (suc n) (suc n), ih (suc n / 2) (omega arith))

pub double-mod : (a m : ℕ) → 0 < m → a % (2 * m) ≡ (a / 2 % m) * 2 + a % 2
double-mod a m h = grind arith

-- `x & (2 ^ k - 1)`
pub bit_and_mask : (k x : ℕ) → bit_and x (2 ^ k - 1) ≡ x % 2 ^ k
bit_and_mask zero x = omega (arith, bit_and-zero x)
bit_and_mask (suc k) x = ground (
  arith,
  bit_and-halves x (2 ^ suc k - 1),
  pow-suc 2 k,
  one-le-pow k 2,
  bit_and_mask k (x / 2),
  double-mod x (2 ^ k),
)

abbrev pub IsPowerOfTwo : ℕ → Type 0
IsPowerOfTwo n = (k : ℕ) × (n ≡ 2 ^ k)

-- `x & (x - 1)` at an even number takes the half's, at an odd one all but the lowest digit.
bit_and-pred_even :
    (n : ℕ) → 0 < n → n % 2 < 1 → bit_and n (n - 1) ≡ bit_and (n / 2) (n / 2 - 1) * 2
bit_and-pred_even n pos even =
    let half : (n - 1) / 2 ≡ n / 2 - 1 = omega arith in
    omega (arith, bit_and-halves n (n - 1), ap (bit_and (n / 2)) half)

bit_and-pred_odd : (n : ℕ) → ¬ (n % 2 < 1) → bit_and n (n - 1) ≡ n - 1
bit_and-pred_odd n odd =
    let half : (n - 1) / 2 ≡ n / 2 = omega arith in
    omega (arith, bit_and-halves n (n - 1), ap (bit_and (n / 2)) half, bit_and_self (n / 2))

pub bit_and-pred_power : (k : ℕ) → bit_and (2 ^ k) (2 ^ k - 1) ≡ 0
bit_and-pred_power k = bit_and_mask k (2 ^ k) ∙ mod_self (2 ^ k)

IsPowerOfTwo-double : (n : ℕ) → n % 2 < 1 → IsPowerOfTwo (n / 2) → IsPowerOfTwo n
IsPowerOfTwo-double n even (k, e) = (suc k, omega (arith, pow-suc 2 k))

pub IsPowerOfTwo-of_and-pred : (n : ℕ) → 0 < n → bit_and n (n - 1) ≡ 0 → IsPowerOfTwo n
IsPowerOfTwo-of_and-pred n =
    WellFoundedLemmas.induction lt_wf {C = λ n. 0 < n → bit_and n (n - 1) ≡ 0 → IsPowerOfTwo n} n
      λ n ih pos e. elim (dec_lt (n % 2) 1) [
        | yes even ↦
            IsPowerOfTwo-double n even
              (ih (n / 2) (omega arith) (omega arith) (omega (arith, bit_and-pred_even n pos even)))
        | no odd ↦ (0, omega (arith, bit_and-pred_odd n odd))
      ]

pow-add : (k d : ℕ) → 2 ^ (k + d) ≡ 2 ^ k * 2 ^ d
pow-add k zero = omega (arith, ap (λ (t : ℕ). 2 ^ t) (add-zero k))
pow-add k (suc d) =
    rw (add-suc k d, pow-suc 2 (k + d), pow-suc 2 d, pow-add k d) (mul_assoc (2 ^ k) (2 ^ d) 2)

-- A narrower ring divides the range of a wider index.
pub pow-dvd-pow : (k w : ℕ) → k ≤ w → 2 ^ k ∣ 2 ^ w
pow-dvd-pow k w h = ∣ (2 ^ (w - k), ap (λ (t : ℕ). 2 ^ t) (omega arith) ∙ pow-add k (w - k)) ∣₁

-- So the slot of an index is not changed by its wrap.
pub mod-pow-mod-pow : (k w x : ℕ) → k ≤ w → x % 2 ^ w % 2 ^ k ≡ x % 2 ^ k
mod-pow-mod-pow k w x h = mod-mod_of_dvd (2 ^ k) x (pow-dvd-pow k w h)

pub pow-lt-pow : (k w : ℕ) → k < w → 2 ^ k < 2 ^ w
pow-lt-pow k w h =
    ground (arith, pow-le-pow_right {n = 2} (omega arith) h, pow-suc 2 k, one-le-pow k 2)

-- the low bit that `x | 1` sets
pub bit_and-bit_or_one : (x : ℕ) → bit_and (bit_or x 1) 1 ≡ 1
bit_and-bit_or_one x = bit_and_mask 1 (bit_or x 1) ∙ odd x
  where
    odd : (y : ℕ) → bit_or y 1 % 2 ≡ 1
    odd zero = ground (arith, bit_or-bitwise 0 1)
    odd (suc y) = omega (arith, bit_or-bitwise (suc y) 1)

-- `x & ~(2 ^ k - 1)` in a word of `w` bits
pub bit_and_high_mask : (k w x : ℕ) → k ≤ w → bit_and x (2 ^ w - 2 ^ k) + x % 2 ^ k ≡ x % 2 ^ w
bit_and_high_mask zero w x h = omega (arith, bit_and_mask w x)
bit_and_high_mask (suc k) (suc w) x h = ground (
  arith,
  bit_and-halves x (2 ^ suc w - 2 ^ suc k),
  pow-suc 2 k,
  pow-suc 2 w,
  one-le-pow k 2,
  one-le-pow w 2,
  bit_and_high_mask k w (x / 2) (omega arith),
  double-mod x (2 ^ k),
  double-mod x (2 ^ w),
)
bit_and_high_mask (suc k) zero x h = absurd (omega arith)

abbrev or_loop : ℕ → ℕ → ℕ → ℕ
or_loop n a b = digits (λ x. x) max n a b

-- Any bound of the first number will do.
or_loop_bound : (n m a b : ℕ) → a ≤ n → a ≤ m → or_loop n a b ≡ or_loop m a b
or_loop_bound zero zero a b p q = refl
or_loop_bound zero (suc m) (suc a) b p q = absurd (omega arith)
or_loop_bound zero (suc m) zero b p q = refl
or_loop_bound (suc n) zero (suc a) b p q = absurd (omega arith)
or_loop_bound (suc n) zero zero b p q = refl
or_loop_bound (suc n) (suc m) zero b p q = refl
or_loop_bound (suc n) (suc m) (suc a) b p q =
    omega (arith, or_loop_bound n m (suc a / 2) (b / 2) (omega arith) (omega arith))

zero-bit_or : (b : ℕ) → bit_or 0 b ≡ b
zero-bit_or b = bit_or-bitwise 0 b

pub bit_or-halves : (a b : ℕ) → bit_or a b ≡ bit_or (a / 2) (b / 2) * 2 + max (a % 2) (b % 2)
bit_or-halves zero b = omega (arith, zero-bit_or b, zero-bit_or (b / 2))
bit_or-halves (suc a) b = omega (
  arith,
  bit_or-bitwise (suc a) b,
  bit_or-bitwise (suc a / 2) (b / 2),
  or_loop_bound a (suc a / 2) (suc a / 2) (b / 2) (omega arith) (omega arith),
)

-- `|` of numbers without a common digit
pub bit_or_high : (k a b : ℕ) → a < 2 ^ k → bit_or a (b * 2 ^ k) ≡ a + b * 2 ^ k
bit_or_high zero a b h =
    let none_set : a ≡ 0 = omega arith in rw none_set (omega (arith, zero-bit_or (b * 2 ^ 0)))
bit_or_high (suc k) a b h =
    let shift : b * 2 ^ suc k ≡ b * 2 ^ k * 2 = rw (pow-suc 2 k) (sym (mul_assoc b (2 ^ k) 2)) in
    let half : b * 2 ^ suc k / 2 ≡ b * 2 ^ k = omega (arith, shift) in
    omega (
      arith,
      shift,
      bit_or-halves a (b * 2 ^ suc k),
      ap (bit_or (a / 2)) half,
      bit_or_high k (a / 2) b (omega (arith, h, pow-suc 2 k)),
    )
