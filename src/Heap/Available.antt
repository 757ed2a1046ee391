-- ===== src/Heap/Available.antt =====
-- NutHeapRootRegionAvailable, against what NutHeapRootAlloc can give.
use v85x_openamp.Base.{
  ℕ, ◌+◌, ◌≤◌, ◌<◌, ◌≡◌, refl, sym, ap, ◌∙◌, List, [], ◌∷◌, arith, if◌then◌else◌, ltb, inl, inr,
  ◌⊎◌, ◌≢◌, Bool-cases,
}
use v85x_openamp.Heap.{
  HeapNode, Heap, node_need, largest_from, nut_heap_root_alloc, nut_heap_root_region_available,
}
use v85x_openamp.Heap.Inv.{NodeValid, Sorted, IsHeap}
use v85x_openamp.Heap.Walk.{In}
use v85x_openamp.Heap.Alloc.{Moderate, node_need-NeedFor, nut_heap_root_alloc-Taken}

In-valid : (lo : ℕ) (n : HeapNode) (xs : List HeapNode) → Sorted lo xs → In n xs → NodeValid n
In-valid lo n [] s h = absurd h
In-valid lo n (x ∷ xs) s (inl e) = rw e s.1
In-valid lo n (x ∷ xs) s (inr t) = In-valid (x.addr + x.hn_size) n xs s.2 t

largest-grows : (rc : ℕ) (xs : List HeapNode) → rc ≤ largest_from rc xs
unfolding largest_from
largest-grows rc [] = omega arith
largest-grows rc (x ∷ xs) =
    ground (arith, largest-grows (if ltb rc x.hn_size then x.hn_size else rc) xs)

largest-bounds :
    (rc : ℕ) (n : HeapNode) (xs : List HeapNode) → In n xs → n.hn_size ≤ largest_from rc xs
unfolding largest_from
largest-bounds rc n [] h = absurd h
largest-bounds rc n (x ∷ xs) (inl e) =
    ground (arith, e, largest-grows (if ltb rc x.hn_size then x.hn_size else rc) xs)
largest-bounds rc n (x ∷ xs) (inr t) =
    largest-bounds (if ltb rc x.hn_size then x.hn_size else rc) n xs t

largest-listed :
    (rc : ℕ) (xs : List HeapNode)
    → (largest_from rc xs ≡ rc) ⊎ ((n : HeapNode) × In n xs × (n.hn_size ≡ largest_from rc xs))
unfolding largest_from
largest-listed rc [] = inl refl
largest-listed rc (x ∷ xs) = elim (largest-listed (if ltb rc x.hn_size then x.hn_size else rc) xs) [
  | inr (n, listed, e) ↦ inr (n, inr listed, e)
  | inl e ↦ elim (Bool-cases (ltb rc x.hn_size)) [
    | inl t ↦ inr (x, inl refl, sym (e ∙ ap (λ b. if b then x.hn_size else rc) t))
    | inr f ↦ inl (e ∙ ap (λ b. if b then x.hn_size else rc) f)
  ]
]

largest_node :
    (lo : ℕ) (xs : List HeapNode)
    → Sorted lo xs
    → xs ≢ []
    → (n : HeapNode) × In n xs × NodeValid n × (n.hn_size ≡ largest_from 0 xs)
largest_node lo [] s some_node = absurd (some_node refl)
largest_node lo (x ∷ xs) s some_node = elim (largest-listed 0 (x ∷ xs)) [
  | inl e ↦ absurd (omega (arith, e, largest-bounds 0 x (x ∷ xs) (inl refl), s.1.room))
  | inr (n, listed, e) ↦ (n, listed, In-valid lo n (x ∷ xs) s listed, e)
]

node_need-fits :
    (size : ℕ) (n : HeapNode)
    → Moderate size
    → NodeValid n
    → size + 4 ≤ n.hn_size
    → node_need size ≤ n.hn_size
unfolding node_need
node_need-fits size n small v h = ground arith

-- On a heap with a free node, an allocation whose size does not wrap succeeds for the sizes up to what
-- NutHeapRootRegionAvailable returns, and returns NULL for every larger one.
pub region_available-alloc :
    (h : Heap) (size : ℕ)
    → IsHeap h
    → h.root ≢ []
    → Moderate size
    → (size ≤ nut_heap_root_region_available h → (nut_heap_root_alloc h size).0 ≢ 0)
      × (nut_heap_root_region_available h < size → (nut_heap_root_alloc h size).0 ≡ 0)
unfolding nut_heap_root_region_available
region_available-alloc h size heap some_node small =
    let (n, listed, v, e) = largest_node 0 h.root heap some_node in
    let region : nut_heap_root_region_available h + 4 ≡ n.hn_size = ground (arith, e, v) in
    elim (nut_heap_root_alloc-Taken h size heap small) [
      | inl (null, _, none_fits) ↦ (
        λ le. absurd (
            omega (
              arith,
              none_fits n listed,
              node_need-fits size n small v (omega (arith, region, le)),
            )),
        λ lt. null,
      )
      | inr (m, ptr, taken, best) ↦ (
        λ le null. omega (arith, ptr, null),
        λ lt. absurd (
            omega (
              arith,
              region,
              e,
              largest-bounds 0 best.fit h.root best.listed,
              best.enough,
              (node_need-NeedFor size small).room,
            )),
      )
    ]
