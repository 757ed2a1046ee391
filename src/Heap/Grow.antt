-- ===== src/Heap/Grow.antt =====
-- NutHeapRootRealloc: a block that takes the free node behind it, and one that moves.
use v85x_openamp.Base.{
  ℕ, suc, ◌+◌, ◌-◌, ◌%◌, ◌≤◌, ◌<◌, ◌≡◌, refl, ap, ◌∙◌, false, List, [], ◌∷◌, arith, if◌then◌else◌,
  ltb, leb, ◌==◌, Bool-cases, inl, inr, ◌⊎◌,
}
use v85x_openamp.Heap.{HeapNode, Heap, node_size, node_of, nut_heap_root_alloc, nut_heap_root_free}
use v85x_openamp.Heap.Realloc.{seek, take_behind, relocate}
use v85x_openamp.Heap.Inv.{
  NodeValid, end, holds, bytes, IsHeap, From, From-next, Sorted-From, Sorted-weaken,
  Sorted-set_link, bytes-set_link,
}
use v85x_openamp.Heap.Alloc.{
  Moderate, rest, part, rest-Sorted, rest-bytes, nut_heap_root_alloc-Taken,
}
use v85x_openamp.Heap.Free.{Held, nut_heap_root_free-Held}

pub seek-From :
    (fnode i : ℕ) (xs ys : List HeapNode)
    → From i xs ys
    → let (j, zs) = seek fnode ys i in From j xs zs
unfolding seek
seek-From fnode i xs [] at_ = at_
seek-From fnode i xs (n ∷ ns) at_ = elim (Bool-cases (ltb n.addr fnode)) [
  | inl t ↦ rw (t, seek) (seek-From fnode (suc i) xs ns (From-next i xs n ns at_))
  | inr f ↦ rw (f, seek) at_
]

-- The block of the node `m` has become that of `m'`: the two heaps and the blocks hold the same bytes,
-- and no word `hn_size` of another block has changed.
pub record Resized (h h' : Heap) (m m' : HeapNode) : Type 0 where
  pub valid : NodeValid m'
  pub above : 0 < m'.addr
  pub header : h'.hn_size m'.addr ≡ m'.hn_size
  pub heap : IsHeap h'
  pub moved : (p : ℕ) → bytes p h'.root + holds p m' ≡ bytes p h.root + holds p m
  pub frame : (q : ℕ) → bytes q h.root + holds q m ≡ 0 → h'.hn_size q ≡ h.hn_size q

module _ (h : Heap) (m : HeapNode) (heap : IsHeap h) (held : Held h m) where
  pub block-node : node_of (m.addr + 4) ≡ m.addr
  block-node = ground (arith, held.valid)

  pub held-Resized : Resized h h m m
  held-Resized = record {
    valid = held.valid;
    above = held.above;
    header = held.header;
    heap = heap;
    moved = λ p. refl;
    frame = λ q free. refl;
  }

  module _ (need npp : ℕ) (node : HeapNode) (hn_next : List HeapNode)
      (at_ : From npp h.root (node ∷ hn_next)) (whole : need % 4 ≡ 0) (more : m.hn_size < need)
      (enough : need - m.hn_size ≤ node.hn_size) (behind : end m ≡ node.addr) where
    abbrev miss : ℕ
    miss = need - m.hn_size

    -- the block afterwards
    abbrev pub grown : HeapNode
    grown = record m {
      hn_size = if leb node_size (node.hn_size - miss) then need else m.hn_size + node.hn_size;
    }

    node-valid : NodeValid node
    node-valid = (Sorted-From npp 0 h.root (node ∷ hn_next) at_ heap).1.1

    behind-moved :
        (p : ℕ)
        → bytes p (take_behind h m.addr miss npp node hn_next).root + holds p grown
          ≡ bytes p h.root + holds p m
    unfolding take_behind
    behind-moved p = elim (Bool-cases (leb node_size (node.hn_size - miss))) [
      | inl t ↦
          let apart =
            bytes-set_link p npp (holds p (part miss node)) h.root (node ∷ hn_next)
              (rest miss node ∷ hn_next) at_
              (rest-bytes miss node hn_next (ground arith) node-valid p) in
          rw t (ground (arith, apart, node-valid))
      | inr f ↦
          let apart =
            bytes-set_link p npp (holds p node) h.root (node ∷ hn_next) hn_next at_ (omega arith) in
          rw f (ground (arith, apart, node-valid))
    ]

    behind-IsHeap : IsHeap (take_behind h m.addr miss npp node hn_next)
    unfolding take_behind
    behind-IsHeap = elim (Bool-cases (leb node_size (node.hn_size - miss))) [
      | inl t ↦ rw t (
          Sorted-set_link npp 0 h.root (node ∷ hn_next) _ at_
            (rest-Sorted miss node hn_next (ground arith) (ground (arith, held.valid))) heap)
      | inr f ↦ rw f (
          Sorted-set_link npp 0 h.root (node ∷ hn_next) _ at_
            (λ lo s. Sorted-weaken (end node) lo hn_next (omega (arith, s.0)) s.2) heap)
    ]

    pub take_behind-Resized : Resized h (take_behind h m.addr miss npp node hn_next) m grown
    unfolding take_behind
    take_behind-Resized = record {
      valid = ground (arith, held.valid, node-valid, whole);
      above = held.above;
      header = ground (arith, held.header, held.valid, node-valid);
      heap = behind-IsHeap;
      moved = behind-moved;
      frame = λ q free. ground (arith, held.valid, free);
    }

  -- a new block, and the old one freed
  pub relocate-Resized :
      (need : ℕ)
      → Moderate need
      → let (ptr, h') = relocate h (m.addr + 4) need in
        ((ptr ≡ 0) × (h' ≡ h))
        ⊎ ((m' : HeapNode) × (ptr ≡ m'.addr + 4) × (need ≤ m'.hn_size) × Resized h h' m m')
  unfolding relocate
  relocate-Resized need small = elim (nut_heap_root_alloc-Taken h need heap small) [
    | inl (null, same, _) ↦ inl (ground (arith, null), ground (arith, null, same))
    | inr (m', ptr, taken, _) ↦
        let h1 = (nut_heap_root_alloc h need).1 in
        let still : Held h1 m = record {
          valid = held.valid;
          above = held.above;
          header = taken.frame m.addr (ground (arith, held.apart m.addr, held.valid)) ∙ held.header;
          apart = λ p. omega (arith, held.apart p, taken.moved p);
        } in
        let (ret, heap', moved, same) = nut_heap_root_free-Held h1 m taken.heap still in
        let kept : Resized h (nut_heap_root_free h1 (m.addr + 4)).1 m m' = record {
          valid = taken.valid;
          above = taken.above;
          header = ap (λ f. f m'.addr) same ∙ taken.header;
          heap = heap';
          moved = λ p. omega (arith, moved p, taken.moved p);
          frame = λ q free. ap (λ f. f q) same ∙ taken.frame q (omega (arith, free));
        } in
        let not_null : ((nut_heap_root_alloc h need).0 == 0) ≡ false = ground (arith, ptr) in
        inr
          (m', rw (relocate, not_null) ptr, omega (arith, taken.room), rw (relocate, not_null) kept)
  ]
