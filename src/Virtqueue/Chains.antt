-- ===== src/Virtqueue/Chains.antt =====
-- Chains of descriptors: the free chain, linked by `next` alone, and the chain of a buffer, which the
-- flag VRING_DESC_F_NEXT continues.
use v85x_openamp.Base.{ℕ, ◌≤◌, ◌<◌, ◌≡◌, refl, List, [], ◌∷◌, ◌++◌, arith, update, bit_and}
use v85x_openamp.Virtqueue.State.{VringDesc, desc_f_next}
use v85x_openamp.Base.Count.{count}

-- From `h` the `next` links lead through `is` to `e`.
abbrev pub LinkedTo : (ℕ → VringDesc) → ℕ → List ℕ → ℕ → Type 0
LinkedTo desc h [] e = h ≡ e
LinkedTo desc h (i ∷ is) e = (h ≡ i) × LinkedTo desc (desc i).next is e

-- The descriptors of one buffer chain: each but the last continues with the one behind it.
abbrev pub IsChain : (ℕ → VringDesc) → List ℕ → Type 0
IsChain desc [] = ⊥
IsChain desc (i ∷ []) = bit_and (desc i).flags desc_f_next ≡ 0
IsChain desc (i ∷ j ∷ is) =
    (bit_and (desc i).flags desc_f_next ≡ 1) × ((desc i).next ≡ j) × IsChain desc (j ∷ is)

abbrev pub last : ℕ → List ℕ → ℕ
last i [] = i
last i (j ∷ is) = last j is

pub count-last : (i : ℕ) (is : List ℕ) → 0 < count (last i is) (i ∷ is)
count-last i [] = ground arith
count-last i (j ∷ is) = omega (arith, count-last j is)

pub LinkedTo-append :
    (desc : ℕ → VringDesc) (h m e : ℕ) (is js : List ℕ)
    → LinkedTo desc h is m
    → LinkedTo desc m js e
    → LinkedTo desc h (is ++ js) e
LinkedTo-append desc h m e [] js p q = rw p q
LinkedTo-append desc h m e (i ∷ is) js p q =
    (p.0, LinkedTo-append desc (desc i).next m e is js p.1 q)

-- where a linked list is cut, its parts are linked
pub LinkedTo-split :
    (desc : ℕ → VringDesc) (h e : ℕ) (is js : List ℕ)
    → LinkedTo desc h (is ++ js) e
    → (m : ℕ) × LinkedTo desc h is m × LinkedTo desc m js e
LinkedTo-split desc h e [] js p = (h, refl, p)
LinkedTo-split desc h e (i ∷ is) js p =
    let (m, a, b) = LinkedTo-split desc (desc i).next e is js p.1 in (m, (p.0, a), b)

-- Only the `next` fields of its members matter to a linked list.
pub LinkedTo-frame :
    (desc desc' : ℕ → VringDesc) (h e : ℕ) (is : List ℕ)
    → ((i : ℕ) → 0 < count i is → (desc' i).next ≡ (desc i).next)
    → LinkedTo desc h is e
    → LinkedTo desc' h is e
LinkedTo-frame desc desc' h e [] same p = p
LinkedTo-frame desc desc' h e (i ∷ is) same p = (
  p.0,
  rw (same i (ground arith))
      (LinkedTo-frame desc desc' (desc i).next e is (λ k c. same k (omega arith)) p.1),
)

pub IsChain-frame :
    (desc desc' : ℕ → VringDesc) (is : List ℕ)
    → ((i : ℕ) → 0 < count i is → desc' i ≡ desc i)
    → IsChain desc is
    → IsChain desc' is
IsChain-frame desc desc' [] same p = p
IsChain-frame desc desc' (i ∷ []) same p = ground (arith, same i)
IsChain-frame desc desc' (i ∷ j ∷ is) same p = (
  ground (arith, same i),
  ground (arith, same i),
  IsChain-frame desc desc' (j ∷ is) (λ k h. same k (omega arith)) p.2,
)

-- Relinking the last descriptor of a buffer chain makes it a linked list to the new target.
pub LinkedTo-relink :
    (desc : ℕ → VringDesc) (e i : ℕ) (is : List ℕ)
    → IsChain desc (i ∷ is)
    → ((j : ℕ) → count j (i ∷ is) ≤ 1)
    → LinkedTo (update desc (last i is) (record (desc (last i is)) { next = e })) i (i ∷ is) e
LinkedTo-relink desc e i [] c once = (refl, ground arith)
LinkedTo-relink desc e i (j ∷ is) c once = (
  refl,
  (
    ground (arith, once i, count-last j is),
    (LinkedTo-relink desc e j is c.2 (λ k. omega (arith, once k))).1,
  ),
)
