-- ===== src/Heap/Alloc.antt =====
-- NutHeapRootAlloc: what it takes from the free list.
use v85x_openamp.Base.{
  ℕ, zero, suc, ◌+◌, ◌-◌, ◌%◌, ◌≤◌, ◌<◌, ◌≡◌, refl, List, [], ◌∷◌, arith, if◌then◌else◌, leb,
  Option, none, some, Bool-cases, Option-cases, inl, inr, ◌⊎◌,
}
use v85x_openamp.Heap.{
  HeapNode, Heap, Fit, u32, add32, node_size, node_need, find_fit, take_fit, nut_heap_root_alloc,
}
use v85x_openamp.Heap.Inv.{
  NodeValid, end, Sorted, holds, bytes, From, Sorted-weaken, Sorted-set_link, bytes-set_link,
  Sorted-From, IsHeap,
}
use v85x_openamp.Heap.Walk.{Fits, AllFit, find_fit-Fits, find_fit-NoBetter, NoBetter, In}

-- sizes for which the arithmetic of NutHeapRootAlloc does not wrap
abbrev pub Moderate : ℕ → Type 0
Moderate size = size + node_size < u32

pub record NeedFor (size need : ℕ) : Type 0 where
  pub room : size + 4 ≤ need
  pub least : node_size ≤ need
  pub whole : need % 4 ≡ 0

pub node_need-NeedFor : (size : ℕ) → Moderate size → NeedFor size (node_need size)
unfolding node_need
node_need-NeedFor size h = ground arith

pub node_need-le : (size : ℕ) → size + 16 < u32 → node_need size ≤ size + node_size
unfolding node_need
node_need-le size h = ground arith

-- The block of the node `m` was taken from the heap `h` for `size` bytes, which left `h'`.
pub record Taken (h h' : Heap) (size : ℕ) (m : HeapNode) : Type 0 where
  pub valid : NodeValid m
  pub room : size + 4 ≤ m.hn_size
  pub header : h'.hn_size m.addr ≡ m.hn_size
  pub above : 0 < m.addr
  pub heap : IsHeap h'
  pub moved : (p : ℕ) → bytes p h'.root + holds p m ≡ bytes p h.root
  pub frame : (q : ℕ) → bytes q h.root ≡ 0 → h'.hn_size q ≡ h.hn_size q

-- the rest of a node that is split
abbrev pub rest : ℕ → HeapNode → HeapNode
rest need n = record { addr = add32 n.addr need; hn_size = n.hn_size - need }

-- the block of a node that is split
abbrev pub part : ℕ → HeapNode → HeapNode
part need n = record { addr = n.addr; hn_size = need }

module _ (need : ℕ) (n : HeapNode) (t : List HeapNode) (room : node_size ≤ n.hn_size - need) where
  pub rest-Sorted : need % 4 ≡ 0 → (lo : ℕ) → Sorted lo (n ∷ t) → Sorted lo (rest need n ∷ t)
  rest-Sorted whole lo s = ground (arith, s.0, s.1, whole)

  pub rest-bytes :
      NodeValid n → (p : ℕ) → bytes p (rest need n ∷ t) + holds p (part need n) ≡ bytes p (n ∷ t)
  rest-bytes v p = ground (arith, v)

-- the node that the block of a fit has afterwards
abbrev pub block_node : ℕ → HeapNode → HeapNode
block_node need n = if leb node_size (n.hn_size - need) then part need n else n

module _ (h : Heap) (size need : ℕ) (needed : NeedFor size need) (fit : Fit) (heap : IsHeap h)
    (fits : Fits need h.root fit) where
  pub fit-valid : (0 < fit.node.addr) × NodeValid fit.node
  fit-valid =
      let (lo, s) = Sorted-From fit.fpp 0 h.root (fit.node ∷ fit.hn_next) fits.0 heap in
      (omega (arith, s.0), s.1)

  -- the bytes of a fit
  fit-moved :
      (p : ℕ)
      → bytes p (take_fit h need fit).root + holds p (block_node need fit.node) ≡ bytes p h.root
  unfolding take_fit
  fit-moved p = elim (Bool-cases (leb node_size (fit.node.hn_size - need))) [
    | inl t ↦ rw t (
        bytes-set_link p fit.fpp _ h.root (fit.node ∷ fit.hn_next) _ fits.0
          (rest-bytes need fit.node fit.hn_next (ground arith) fit-valid.1 p))
    | inr f ↦
        rw f (bytes-set_link p fit.fpp _ h.root (fit.node ∷ fit.hn_next) _ fits.0 (omega arith))
  ]

  fit-IsHeap : IsHeap (take_fit h need fit)
  unfolding take_fit
  fit-IsHeap = elim (Bool-cases (leb node_size (fit.node.hn_size - need))) [
    | inl t ↦ rw t (
        Sorted-set_link fit.fpp 0 h.root (fit.node ∷ fit.hn_next) _ fits.0
          (rest-Sorted need fit.node fit.hn_next (ground arith) needed.whole) heap)
    | inr f ↦ rw f (
        Sorted-set_link fit.fpp 0 h.root (fit.node ∷ fit.hn_next) _ fits.0
          (λ lo s. Sorted-weaken (end fit.node) lo fit.hn_next (omega (arith, s.0)) s.2) heap)
  ]

  pub take_fit-Taken : Taken h (take_fit h need fit) size (block_node need fit.node)
  unfolding take_fit
  take_fit-Taken = record {
    valid = ground (arith, fit-valid, needed);
    room = ground (arith, fits.1, needed);
    header = ground arith;
    above = ground (arith, fit-valid);
    heap = fit-IsHeap;
    moved = fit-moved;
    frame = λ q free. ground (arith, fit-moved q, fit-valid, needed, free);
  }

abbrev pub found : Heap → ℕ → Option Fit
found h size = find_fit (node_need size) h.root 0 none

In-From :
    (i : ℕ) (xs : List HeapNode) (n : HeapNode) (ys : List HeapNode) → From i xs (n ∷ ys) → In n xs
In-From zero xs n ys h = rw h (inl refl)
In-From (suc i) [] n ys h = absurd h
In-From (suc i) (x ∷ xs) n ys h = inr (In-From i xs n ys h)

-- The block at `addr` was taken from a node of the list that is as small as can be.
pub record BestFit (h : Heap) (size addr : ℕ) : Type 0 where
  pub fit : HeapNode
  pub listed : In fit h.root
  pub same : fit.addr ≡ addr
  pub enough : node_need size ≤ fit.hn_size
  pub least : (n : HeapNode) → In n h.root → node_need size ≤ n.hn_size → fit.hn_size ≤ n.hn_size

-- For a size whose arithmetic does not wrap: either no free node has room, and the result is NULL with
-- the heap as it was; or the result is the user region of a block with room for `size` bytes, taken
-- from the smallest free node that has room. Every byte of the block leaves the free list and no
-- other does, and the free list stays sorted, with its nodes aligned and apart.
pub nut_heap_root_alloc-Taken :
    (h : Heap) (size : ℕ)
    → IsHeap h
    → Moderate size
    → let (ptr, h') = nut_heap_root_alloc h size in
      ((ptr ≡ 0) × (h' ≡ h) × ((n : HeapNode) → In n h.root → n.hn_size < node_need size))
      ⊎ ((m : HeapNode) × (ptr ≡ m.addr + 4) × Taken h h' size m × BestFit h size m.addr)
unfolding nut_heap_root_alloc
nut_heap_root_alloc-Taken h size heap small = elim (Option-cases (found h size)) [
  | inl e ↦ rw (e, nut_heap_root_alloc) (inl (refl, refl, λ n listed. rw e at (best n listed)))
  | inr (fit, e) ↦
      let fits : AllFit (node_need size) h.root (some fit) =
        rw e at (find_fit-Fits (node_need size) h.root h.root 0 none refl tt) in
      let needed = node_need-NeedFor size small in
      let v = fit-valid h size (node_need size) needed fit heap fits in
      rw (e, nut_heap_root_alloc)
        (inr (
          block_node (node_need size) fit.node,
          ground (arith, v),
          take_fit-Taken h size (node_need size) needed fit heap fits,
          record {
            fit = fit.node;
            listed = In-From fit.fpp h.root fit.node fit.hn_next fits.0;
            same = ground arith;
            enough = fits.1;
            least = λ n listed. rw e at (best n listed);
          },
        ))
]
  where
    best : (n : HeapNode) → In n h.root → NoBetter (node_need size) n (found h size)
    best n listed = find_fit-NoBetter (node_need size) n h.root 0 none tt (inr listed)
