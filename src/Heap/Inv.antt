-- ===== src/Heap/Inv.antt =====
-- What the free list of a heap looks like, and which bytes it holds.
use v85x_openamp.Base.{
  ℕ, zero, suc, ◌+◌, ◌%◌, ◌≤◌, ◌<◌, ◌≡◌, refl, ◌&&◌, List, [], ◌∷◌, arith, if◌then◌else◌, ltb, leb,
}
use v85x_openamp.Heap.{HeapNode, Heap, u32, node_size, set_link}

-- A node's size is a multiple of the alignment and has room for the node, and the node ends below the
-- top of the address space.
pub record NodeValid (n : HeapNode) : Type 0 where
  pub room : node_size ≤ n.hn_size
  pub whole : n.hn_size % 4 ≡ 0
  pub aligned : n.addr % 4 ≡ 0
  pub inside : n.addr + n.hn_size < u32

abbrev pub end : HeapNode → ℕ
end n = n.addr + n.hn_size

-- The nodes stand in the order of their addresses above `lo`, with a gap between any two.
abbrev pub Sorted : ℕ → List HeapNode → Type 0
Sorted lo [] = Unit
Sorted lo (n ∷ ns) = (lo < n.addr) × NodeValid n × Sorted (end n) ns

-- 1 for a byte of the node
abbrev pub holds : ℕ → HeapNode → ℕ
holds p n = if leb n.addr p && ltb p (end n) then 1 else 0

-- the number of nodes that a byte is in
abbrev pub bytes : ℕ → List HeapNode → ℕ
bytes p [] = 0
bytes p (n ∷ ns) = holds p n + bytes p ns

-- The list `ys` is what `xs` has from the place `i` on.
abbrev pub From : ℕ → List HeapNode → List HeapNode → Type 0
From zero xs ys = xs ≡ ys
From (suc i) [] ys = ⊥
From (suc i) (x ∷ xs) ys = From i xs ys

pub From-next :
    (i : ℕ) (xs : List HeapNode) (n : HeapNode) (ys : List HeapNode)
    → From i xs (n ∷ ys)
    → From (suc i) xs ys
From-next zero xs n ys h = rw h refl
From-next (suc i) [] n ys h = absurd h
From-next (suc i) (x ∷ xs) n ys h = From-next i xs n ys h

pub Sorted-weaken : (lo lo' : ℕ) (xs : List HeapNode) → lo' ≤ lo → Sorted lo xs → Sorted lo' xs
Sorted-weaken lo lo' [] le s = tt
Sorted-weaken lo lo' (x ∷ xs) le s = (omega (arith, s.0), s.1, s.2)

-- A change from a place on that keeps the order keeps it in the whole list.
pub Sorted-set_link :
    (i lo : ℕ) (xs ys zs : List HeapNode)
    → From i xs ys
    → ((lo' : ℕ) → Sorted lo' ys → Sorted lo' zs)
    → Sorted lo xs
    → Sorted lo (set_link i zs xs)
unfolding set_link
Sorted-set_link zero lo xs ys zs at_ keep s = keep lo (rw at_ at s)
Sorted-set_link (suc i) lo [] ys zs at_ keep s = absurd at_
Sorted-set_link (suc i) lo (x ∷ xs) ys zs at_ keep s =
    (s.0, s.1, Sorted-set_link i (end x) xs ys zs at_ keep s.2)

pub bytes-set_link :
    (p i c : ℕ) (xs ys zs : List HeapNode)
    → From i xs ys
    → bytes p zs + c ≡ bytes p ys
    → bytes p (set_link i zs xs) + c ≡ bytes p xs
unfolding set_link
bytes-set_link p zero c xs ys zs at_ h = rw at_ h
bytes-set_link p (suc i) c [] ys zs at_ h = absurd at_
bytes-set_link p (suc i) c (x ∷ xs) ys zs at_ h = omega (arith, bytes-set_link p i c xs ys zs at_ h)

pub Sorted-From :
    (i lo : ℕ) (xs ys : List HeapNode) → From i xs ys → Sorted lo xs → (lo' : ℕ) × Sorted lo' ys
Sorted-From zero lo xs ys at_ s = (lo, rw at_ at s)
Sorted-From (suc i) lo [] ys at_ s = absurd at_
Sorted-From (suc i) lo (x ∷ xs) ys at_ s = Sorted-From i (end x) xs ys at_ s.2

abbrev pub IsHeap : Heap → Type 0
IsHeap h = Sorted 0 h.root
