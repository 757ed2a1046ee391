-- ===== src/Base/Count.antt =====
-- How often an index stands in a list, and what follows for a list that holds each index below `n`
-- once.
use mathlib.Core.List.{List, [], ◌∷◌, ◌++◌}
use Prim.Native.Nat.{ℕ, zero, suc, ◌+◌, ◌≤◌, ◌<◌}
use mathlib.Core.Path.{◌≡◌, refl, ◌∙◌}
use native.Mathlib.Omega.{arith}
use v85x_openamp.Base.Arrays.{length}
use v85x_openamp.Base.Tests.{ltb, ◌==◌, if◌then◌else◌}

abbrev pub count : ℕ → List ℕ → ℕ
count i [] = 0
count i (x ∷ xs) = (if x == i then 1 else 0) + count i xs

pub count-append : (i : ℕ) (xs ys : List ℕ) → count i (xs ++ ys) ≡ count i xs + count i ys
count-append i [] ys = omega arith
count-append i (x ∷ xs) ys = omega (arith, count-append i xs ys)

-- the members of `xs` below `n`, each as often as it stands there
abbrev sum_counts : ℕ → List ℕ → ℕ
sum_counts zero xs = 0
sum_counts (suc n) xs = count n xs + sum_counts n xs

sum_counts-nil : (n : ℕ) → sum_counts n [] ≡ 0
sum_counts-nil zero = refl
sum_counts-nil (suc n) = omega (arith, sum_counts-nil n)

sum_counts-cons :
    (n x : ℕ) (xs : List ℕ) → sum_counts n (x ∷ xs) ≡ (if ltb x n then 1 else 0) + sum_counts n xs
sum_counts-cons zero x xs = ground arith
sum_counts-cons (suc n) x xs = ground (arith, sum_counts-cons n x xs)

length-eq-sum_counts :
    (n : ℕ) (xs : List ℕ) → ((i : ℕ) → n ≤ i → count i xs ≡ 0) → length xs ≡ sum_counts n xs
length-eq-sum_counts n [] h = omega (arith, sum_counts-nil n)
length-eq-sum_counts n (x ∷ xs) h =
    ground
      (arith, sum_counts-cons n x xs, h x, length-eq-sum_counts n xs (λ i p. omega (arith, h i p)))

sum_counts_once :
    (n m : ℕ) (xs : List ℕ) → m ≤ n → ((i : ℕ) → i < n → count i xs ≡ 1) → sum_counts m xs ≡ m
sum_counts_once n zero xs le h = refl
sum_counts_once n (suc m) xs le h =
    omega (arith, h m (omega arith), sum_counts_once n m xs (omega arith) h)

-- A list that holds each index below `n` once, and no other, has `n` elements.
pub length_of_partition :
    (n : ℕ) (xs : List ℕ) → ((i : ℕ) → count i xs ≡ (if ltb i n then 1 else 0)) → length xs ≡ n
length_of_partition n xs h =
    length-eq-sum_counts n xs (λ i p. ground (arith, h i))
    ∙ sum_counts_once n n xs (omega arith) (λ i p. ground (arith, h i))
