-- ===== src/Heap/Walk.antt =====
-- The walk of NutHeapRootAlloc through the free list: the node it stops at.
use v85x_openamp.Base.{
  ℕ, suc, ◌≤◌, ◌<◌, ◌≡◌, refl, ◌&&◌, Bool, true, false, List, [], ◌∷◌, arith, leb, ◌==◌, Option,
  none, some, inl, inr, ◌⊎◌,
}
use v85x_openamp.Heap.{HeapNode, Fit, better, find_fit}
use v85x_openamp.Heap.Inv.{From, From-next}

abbrev pub In : HeapNode → List HeapNode → Type 0
In m [] = ⊥
In m (n ∷ ns) = (m ≡ n) ⊎ In m ns

-- The three ways on from a node.
module _ (need : ℕ) (n : HeapNode) (ns : List HeapNode) (i : ℕ) (fit : Option Fit) where
  abbrev here : Option Fit
  here = some (record { fpp = i; node = n; hn_next = ns })

  -- what `find_fit` does at the node `n`
  abbrev Onward : Type 0
  Onward =
      ((leb need n.hn_size && better fit n ≡ false)
        × (find_fit need (n ∷ ns) i fit ≡ find_fit need ns (suc i) fit))
      ⊎ (((need ≤ n.hn_size) × (better fit n ≡ true))
          × ((find_fit need (n ∷ ns) i fit ≡ find_fit need ns (suc i) here)
              ⊎ ((n.hn_size ≡ need) × (find_fit need (n ∷ ns) i fit ≡ here))))

  find_fit_cases : Onward
  unfolding find_fit
  find_fit_cases = go (leb need n.hn_size && better fit n) refl (n.hn_size == need) refl
    where
      go :
          (b : Bool)
          → leb need n.hn_size && better fit n ≡ b
          → (c : Bool) → (n.hn_size == need) ≡ c
          → Onward
      go false e c e' = inl (e, rw (e, find_fit) refl)
      go true e true e' =
          inr ((ground arith, ground arith), inr (ground arith, rw (e, e', find_fit) refl))
      go true e false e' = inr ((ground arith, ground arith), inl (rw (e, e', find_fit) refl))

-- a node at its place in the list, with room for `need` bytes
abbrev pub Fits : ℕ → List HeapNode → Fit → Type 0
Fits need xs fit = From fit.fpp xs (fit.node ∷ fit.hn_next) × (need ≤ fit.node.hn_size)

abbrev pub AllFit : ℕ → List HeapNode → Option Fit → Type 0
AllFit need xs none = Unit
AllFit need xs (some fit) = Fits need xs fit

-- what the walk finds is in the list, and fits
pub find_fit-Fits :
    (need : ℕ) (xs ys : List HeapNode) (i : ℕ) (fit : Option Fit)
    → From i xs ys
    → AllFit need xs fit
    → AllFit need xs (find_fit need ys i fit)
unfolding find_fit
find_fit-Fits need xs [] i fit at_ h = h
find_fit-Fits need xs (n ∷ ns) i fit at_ h = elim (find_fit_cases need n ns i fit) [
  | inl (_, e) ↦ rw e (find_fit-Fits need xs ns (suc i) fit (From-next i xs n ns at_) h)
  | inr (good, inl e) ↦ rw e (
      find_fit-Fits need xs ns (suc i) (here need n ns i fit) (From-next i xs n ns at_)
        (at_, good.0))
  | inr (good, inr (_, e)) ↦ rw e (at_, good.0)
]

-- No node of the list that has room is smaller than the one found; none is found where none has room.
abbrev pub NoBetter : ℕ → HeapNode → Option Fit → Type 0
NoBetter need m none = m.hn_size < need
NoBetter need m (some fit) = need ≤ m.hn_size → fit.node.hn_size ≤ m.hn_size

abbrev Room : ℕ → Option Fit → Type 0
Room need none = Unit
Room need (some fit) = need ≤ fit.node.hn_size

NoBetter-found :
    (need : ℕ) (m n : HeapNode) (ns : List HeapNode) (i : ℕ) (fit : Option Fit)
    → better fit n ≡ true
    → NoBetter need m fit
    → NoBetter need m (here need n ns i fit)
NoBetter-found need m n ns i none b h r = absurd (omega arith)
NoBetter-found need m n ns i (some f) b h r = ground (arith, h r)

NoBetter-passed :
    (need : ℕ) (n : HeapNode) (fit : Option Fit)
    → leb need n.hn_size && better fit n ≡ false
    → NoBetter need n fit
NoBetter-passed need n none b = ground arith
NoBetter-passed need n (some f) b = λ r. ground arith

pub find_fit-NoBetter :
    (need : ℕ) (m : HeapNode) (ys : List HeapNode) (i : ℕ) (fit : Option Fit)
    → Room need fit
    → NoBetter need m fit ⊎ In m ys
    → NoBetter need m (find_fit need ys i fit)
unfolding find_fit
find_fit-NoBetter need m [] i fit room (inl h) = h
find_fit-NoBetter need m [] i fit room (inr h) = absurd h
find_fit-NoBetter need m (n ∷ ns) i fit room h = elim (find_fit_cases need n ns i fit) [
  | inl (b, e) ↦ rw e (find_fit-NoBetter need m ns (suc i) fit room (passed b h))
  | inr (good, inl e) ↦
      rw e (find_fit-NoBetter need m ns (suc i) (here need n ns i fit) good.0 (found good.1 h))
  | inr (good, inr (eq, e)) ↦ rw e (λ r. omega (arith, eq))
]
  where
    passed :
        leb need n.hn_size && better fit n ≡ false
        → NoBetter need m fit ⊎ In m (n ∷ ns)
        → NoBetter need m fit ⊎ In m ns
    passed b (inl h) = inl h
    passed b (inr (inl e)) = inl (rw e (NoBetter-passed need n fit b))
    passed b (inr (inr t)) = inr t

    found :
        better fit n ≡ true
        → NoBetter need m fit ⊎ In m (n ∷ ns)
        → NoBetter need m (here need n ns i fit) ⊎ In m ns
    found b (inl h) = inl (NoBetter-found need m n ns i fit b h)
    found b (inr (inl e)) = inl (rw e (λ r. omega arith))
    found b (inr (inr t)) = inr t
