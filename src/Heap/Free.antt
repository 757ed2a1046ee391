-- ===== src/Heap/Free.antt =====
-- NutHeapRootFree: a block goes back to the free list.
use v85x_openamp.Base.{
  ℕ, ◌+◌, ◌≤◌, ◌<◌, ◌≡◌, refl, ap, ◌∙◌, ◌&&◌, false, List, [], ◌∷◌, arith, if◌then◌else◌, ltb, leb,
  ◌==◌, none, some, Bool-cases, inl, inr, ◌⊎◌, pos, negsuc,
}
use v85x_openamp.Heap.{
  HeapNode, Heap, relinked, u32, add32, link_in, merge_next, node_of, nut_heap_root_free,
}
use v85x_openamp.Heap.Inv.{NodeValid, end, Sorted, holds, bytes, IsHeap}

-- no byte of the block is in the list
abbrev pub Apart : HeapNode → List HeapNode → Type 0
Apart m [] = Unit
Apart m (n ∷ ns) = ((end m ≤ n.addr) ⊎ (end n ≤ m.addr)) × Apart m ns

-- What `link_in` makes of a list.
abbrev Linked : ℕ → HeapNode → List HeapNode → List HeapNode → Type 0
Linked lo m xs ys = Sorted lo ys × ((p : ℕ) → bytes p ys ≡ bytes p xs + holds p m)

-- the node before the block has grown to the block's end
grown_lem :
    (lo : ℕ) (m n : HeapNode) (ns : List HeapNode)
    → NodeValid m
    → Sorted lo (n ∷ ns)
    → Apart m ns
    → end n ≡ m.addr
    → Linked lo m (n ∷ ns) (merge_next (record n { hn_size = add32 n.hn_size m.hn_size }) ns)
grown_lem lo m n [] v s apart e = ground (arith, v, s.0, s.1, e)
grown_lem lo m n (x ∷ xs) v s apart e =
    let above : end m ≤ x.addr = omega (arith, apart.0, s.2.0, s.2.1.room) in
    (ground (arith, v, s.0, s.1, s.2, e, above), λ p. ground (arith, v, s.1, s.2.1, e, above))

-- a block that goes before a node
before_lem :
    (lo : ℕ) (m n : HeapNode) (ns : List HeapNode)
    → NodeValid m
    → lo < m.addr
    → Sorted lo (n ∷ ns)
    → end m ≤ n.addr
    → Linked lo m (n ∷ ns) (
        if add32 m.addr m.hn_size == n.addr
        then record m { hn_size = add32 m.hn_size n.hn_size } ∷ ns
        else m ∷ n ∷ ns)
before_lem lo m n ns v low s above =
    (ground (arith, v, s.1, s.2, above), λ p. ground (arith, v, s.1, above))

pub link_in-Linked :
    (lo : ℕ) (m : HeapNode) (xs : List HeapNode)
    → NodeValid m
    → lo < m.addr
    → Sorted lo xs
    → Apart m xs
    → (ys : List HeapNode) × (link_in m xs ≡ some ys) × Linked lo m xs ys
unfolding link_in
link_in-Linked lo m [] v low s apart =
    (m ∷ [], refl, ((omega (arith, low), v, tt), λ p. omega arith))
link_in-Linked lo m (n ∷ ns) v low s apart = elim (Bool-cases (add32 n.addr n.hn_size == m.addr)) [
  | inl t ↦ (_, rw (t, link_in) refl, grown_lem lo m n ns v s apart.1 (ground (arith, t, s.1)))
  | inr f ↦ elim (Bool-cases (ltb m.addr n.addr)) [
    | inl t ↦
        (_, rw (f, t, link_in) refl, before_lem lo m n ns v low s (ground (arith, t, apart.0, s.1)))
    | inr g ↦
        let behind : end n < m.addr = ground (arith, f, g, apart.0, s.1, v) in
        let (ys, e, (sorted, moved)) = link_in-Linked (end n) m ns v behind s.2 apart.1 in
        let past : ltb m.addr (add32 n.addr n.hn_size) ≡ false = ground (arith, behind, s.1) in
        (
          n ∷ ys,
          rw (f, g, past, e, link_in) refl,
          ((s.0, s.1, sorted), λ p. omega (arith, moved p)),
        )
  ]
]

Apart-of_bytes :
    (lo : ℕ) (m : HeapNode) (xs : List HeapNode)
    → NodeValid m
    → Sorted lo xs
    → ((p : ℕ) → bytes p xs + holds p m ≤ 1)
    → Apart m xs
Apart-of_bytes lo m [] v s once = tt
Apart-of_bytes lo m (n ∷ ns) v s once = (
  ground (arith, once m.addr, once n.addr, s.1, v),
  Apart-of_bytes (end n) m ns v s.2 (λ p. omega (arith, once p)),
)

-- A block that is not in the free list: one that has been taken from the heap, or a new region.
pub record Held (h : Heap) (m : HeapNode) : Type 0 where
  pub valid : NodeValid m
  pub above : 0 < m.addr
  pub header : h.hn_size m.addr ≡ m.hn_size
  pub apart : (p : ℕ) → bytes p h.root + holds p m ≤ 1

free_at :
    (h : Heap) (a : ℕ)
    → a + 4 < u32
    → nut_heap_root_free h (a + 4)
      ≡ relinked h (link_in (record { addr = a; hn_size = h.hn_size a }) h.root)
unfolding nut_heap_root_free
free_at h a small =
    let node : node_of (a + 4) ≡ a = ground (arith, small) in
    let nonzero : (a + 4 == 0) ≡ false = ground arith in rw (nut_heap_root_free, node, nonzero) refl

pub free_walk :
    (h : Heap) (m : HeapNode)
    → NodeValid m
    → h.hn_size m.addr ≡ m.hn_size
    → nut_heap_root_free h (m.addr + 4) ≡ relinked h (link_in m h.root)
free_walk h m v header =
    free_at h m.addr (omega (arith, v.room, v.inside))
    ∙ ap (λ s. relinked h (link_in (record { addr = m.addr; hn_size = s }) h.root)) header

-- Freeing a block that is held succeeds: exactly its bytes come back to the free list, which stays
-- sorted, with a gap between any two nodes, so that free neighbours have been joined.
pub nut_heap_root_free-Held :
    (h : Heap) (m : HeapNode)
    → IsHeap h
    → Held h m
    → let (ret, h') = nut_heap_root_free h (m.addr + 4) in
      (ret ≡ pos 0)
      × IsHeap h'
      × ((p : ℕ) → bytes p h'.root ≡ bytes p h.root + holds p m)
      × (h'.hn_size ≡ h.hn_size)
nut_heap_root_free-Held h m heap held =
    let (ys, e, (sorted, moved)) =
      link_in-Linked 0 m h.root held.valid held.above heap
        (Apart-of_bytes 0 m h.root held.valid heap held.apart) in
    rw (free_walk h m held.valid held.header, e) (refl, sorted, moved, refl)

-- the walk comes to a node that the address is in
link_in-inside :
    (lo : ℕ) (m : HeapNode) (xs : List HeapNode)
    → Sorted lo xs
    → 0 < bytes m.addr xs
    → (link_in m xs ≡ none) × (lo < m.addr)
unfolding link_in
link_in-inside lo m [] s h = absurd (omega arith)
link_in-inside lo m (n ∷ ns) s h = elim (Bool-cases (ltb m.addr (end n) && leb n.addr m.addr)) [
  | inl t ↦ (ground (arith, t, s.1), ground (arith, t, s.0))
  | inr f ↦
      let (later, low) = link_in-inside (end n) m ns s.2 (ground (arith, f, h)) in
      (ground (arith, later, low, s.1), omega (arith, low, s.0))
]

-- A block whose node lies in memory that is already free is refused with -1, and the heap is left as it
-- was.
pub nut_heap_root_free_refuses :
    (h : Heap) (a : ℕ)
    → IsHeap h
    → a + 4 < u32
    → 0 < bytes a h.root
    → nut_heap_root_free h (a + 4) ≡ (negsuc 0, h)
nut_heap_root_free_refuses h a heap small inside =
    free_at h a small
    ∙ ap (relinked h)
        (link_in-inside 0 (record { addr = a; hn_size = h.hn_size a }) h.root heap inside).0

-- The second of two frees of one block returns -1 and leaves the heap as the first one made it, also
-- where the block has been joined with its neighbours.
pub nut_heap_root_free_twice :
    (h : Heap) (m : HeapNode)
    → IsHeap h
    → Held h m
    → let (ret, h') = nut_heap_root_free h (m.addr + 4) in
      nut_heap_root_free h' (m.addr + 4) ≡ (negsuc 0, h')
nut_heap_root_free_twice h m heap held =
    let (ret, heap', moved, same) = nut_heap_root_free-Held h m heap held in
    nut_heap_root_free_refuses (nut_heap_root_free h (m.addr + 4)).1 m.addr heap'
      (omega (arith, held.valid.room, held.valid.inside)) (ground (arith, moved m.addr, held.valid))
