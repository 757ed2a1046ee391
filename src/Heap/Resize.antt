-- ===== src/Heap/Resize.antt =====
-- NutHeapRootRealloc: where the bytes of the block come from and go to.
use mathlib.Core.Path.{subst}
use v85x_openamp.Base.{
  is_zero, zero, suc, ℕ, ◌+◌, ◌-◌, ◌%◌, ◌≤◌, ◌<◌, ◌≡◌, refl, sym, ap, ◌∙◌, ◌&&◌, Bool, true, false,
  List, [], ◌∷◌, arith, if◌then◌else◌, ltb, leb, ◌==◌, update, Bool-cases, inl, inr, ◌⊎◌,
}
use v85x_openamp.Heap.{
  nut_heap_root_alloc, HeapNode, Heap, u32, add32, sub32, node_size, node_of, node_need,
  nut_heap_root_free, prepare_user_area,
}
use v85x_openamp.Heap.Realloc.{
  release_all, seek, take_behind, relocate, expand_at, expand, reduce, nut_heap_root_realloc,
}
use v85x_openamp.Heap.Inv.{holds, bytes, end, IsHeap, From}
use v85x_openamp.Heap.Alloc.{Moderate, node_need-NeedFor, node_need-le, part}
use v85x_openamp.Heap.Free.{Held, nut_heap_root_free-Held}
use v85x_openamp.Heap.Grow.{
  seek-From, Resized, block-node, held-Resized, grown, take_behind-Resized, relocate-Resized,
}

module _ (h : Heap) (m : HeapNode) (heap : IsHeap h) (held : Held h m) where
  -- what a call that asks for `need` bytes returns
  abbrev pub Outcome : ℕ → ℕ × Heap → Type 0
  Outcome need (ptr, h') =
      ((ptr ≡ 0) × (h' ≡ h))
      ⊎ ((m' : HeapNode) × (ptr ≡ m'.addr + 4) × (need ≤ m'.hn_size) × Resized h h' m m')

  module _ (need : ℕ) (small : Moderate need) (whole : need % 4 ≡ 0) where
    -- `expand_at` at a node, for a block at `fnode` of `held_size` bytes
    abbrev at_node : ℕ → HeapNode → List HeapNode → ℕ → ℕ → ℕ × Heap
    at_node npp node hn_next fnode held_size =
        elim (leb (need - held_size) node.hn_size && add32 fnode held_size == node.addr) [
          | true ↦ (m.addr + 4, take_behind h fnode (need - held_size) npp node hn_next)
          | false ↦ relocate h (m.addr + 4) need
        ]

    expand_at-at_node :
        (npp : ℕ) (node : HeapNode) (hn_next : List HeapNode)
        → expand_at h (m.addr + 4) need (npp, node ∷ hn_next)
          ≡ at_node npp node hn_next m.addr m.hn_size
    unfolding expand_at
    expand_at-at_node npp node hn_next =
        ap (λ a. at_node npp node hn_next a (h.hn_size a)) (block-node h m heap held)
        ∙ ap (at_node npp node hn_next m.addr) held.header

    at_node-Resized :
        (npp : ℕ) (node : HeapNode) (hn_next : List HeapNode)
        → m.hn_size < need
        → From npp h.root (node ∷ hn_next)
        → (b : Bool)
        → leb (need - m.hn_size) node.hn_size && add32 m.addr m.hn_size == node.addr ≡ b
        → Outcome need (at_node npp node hn_next m.addr m.hn_size)
    at_node-Resized npp node hn_next more at_ false e =
        rw (e, at_node) (relocate-Resized h m heap held need small)
    at_node-Resized npp node hn_next more at_ true e =
        let enough : need - m.hn_size ≤ node.hn_size = ground (arith, e) in
        let behind : end m ≡ node.addr = ground (arith, e, held.valid) in
        rw (e, at_node)
          (inr (
            grown h m heap held need npp node hn_next at_ whole more enough behind,
            refl,
            ground (arith, enough),
            take_behind-Resized h m heap held need npp node hn_next at_ whole more enough behind,
          ))

    expand_at-Resized :
        m.hn_size < need
        → (npp : ℕ) (rest : List HeapNode) → From npp h.root rest
        → Outcome need (expand_at h (m.addr + 4) need (npp, rest))
    unfolding expand_at
    expand_at-Resized more npp [] at_ = relocate-Resized h m heap held need small
    expand_at-Resized more npp (node ∷ hn_next) at_ =
        subst (Outcome need) (sym (expand_at-at_node npp node hn_next))
          (at_node-Resized npp node hn_next more at_ _ refl)

    expand-Resized : m.hn_size < need → Outcome need (expand h (m.addr + 4) need)
    unfolding expand
    expand-Resized more =
        let found = seek (node_of (m.addr + 4)) h.root 0 in
        expand_at-Resized more found.0 found.1
          (seek-From (node_of (m.addr + 4)) 0 h.root h.root refl)

    abbrev tail : HeapNode
    tail = record { addr = m.addr + need; hn_size = m.hn_size - need }

    abbrev cut : Heap
    cut = record h { hn_size = update h.hn_size tail.addr tail.hn_size }

    abbrev cut_free : Heap
    cut_free = (nut_heap_root_free cut (tail.addr + 4)).1

    reduce-cut :
        node_size ≤ need
        → need + node_size < m.hn_size
        → Resized h
            (record cut_free { hn_size = update cut_free.hn_size m.addr need })
            m
            (part need m)
    reduce-cut least less =
        let held' : Held cut tail = record {
          valid = ground (arith, held.valid, whole, less);
          above = omega (arith, held.above);
          header = ground arith;
          apart = λ p. ground (arith, held.apart p);
        } in
        let (ret, heap', moved, same) = nut_heap_root_free-Held cut tail heap held' in
        record {
          valid = ground (arith, held.valid, whole, least, less);
          above = held.above;
          header = ground arith;
          heap = heap';
          moved = λ p. ground (arith, moved p, less);
          frame = λ q free. ground (arith, ap (λ f. f q) same, held.valid, less, least, free);
        }

    -- `reduce` for a block at `fnode` of `held_size` bytes
    abbrev reduced : ℕ → ℕ → ℕ × Heap
    reduced fnode held_size =
        let node = add32 fnode need in
        let cut = record h { hn_size = update h.hn_size node (held_size - need) } in
        let released = (nut_heap_root_free cut (prepare_user_area node)).1 in
        if ltb need (sub32 held_size node_size)
        then (m.addr + 4, record released { hn_size = update released.hn_size fnode need })
        else (m.addr + 4, h)

    reduce-at_node : reduce h (m.addr + 4) need ≡ reduced m.addr m.hn_size
    unfolding reduce
    reduce-at_node =
        ap (λ a. reduced a (h.hn_size a)) (block-node h m heap held)
        ∙ ap (reduced m.addr) held.header

    reduced-Resized : node_size ≤ need → need ≤ m.hn_size → Outcome need (reduced m.addr m.hn_size)
    reduced-Resized least fits = elim (Bool-cases (ltb need (sub32 m.hn_size node_size))) [
      | inl t ↦
          let less : need + node_size < m.hn_size = ground (arith, t, held.valid) in
          let node : add32 m.addr need ≡ tail.addr = ground (arith, less, held.valid) in
          let area : prepare_user_area tail.addr ≡ tail.addr + 4 =
            ground (arith, less, held.valid) in
          rw (t, reduced, node, area) (inr (part need m, refl, omega arith, reduce-cut least less))
      | inr f ↦ rw (f, reduced) (inr (m, refl, fits, held-Resized h m heap held))
    ]

  -- the last test of NutHeapRootRealloc, for a block of `held_size` bytes
  abbrev chosen : ℕ → ℕ → ℕ × Heap
  chosen need held_size = elim (ltb held_size need) [
    | true ↦ expand h (m.addr + 4) need
    | false ↦ reduce h (m.addr + 4) need
  ]

  realloc-chosen :
      (size : ℕ)
      → 0 < size
      → nut_heap_root_realloc h (m.addr + 4) size ≡ chosen (node_need size) m.hn_size
  unfolding nut_heap_root_realloc
  realloc-chosen size some_size =
      let not_null : (m.addr + 4 == 0) ≡ false = ground arith in
      let not_empty : (size == 0) ≡ false = ground arith in
      rw (nut_heap_root_realloc, not_null, not_empty)
        (ap (λ a. chosen (node_need size) (h.hn_size a)) (block-node h m heap held)
          ∙ ap (chosen (node_need size)) held.header)

  chosen-Resized :
      (size : ℕ) → size + 16 < u32 → Outcome (node_need size) (chosen (node_need size) m.hn_size)
  chosen-Resized size small =
      let needed = node_need-NeedFor size (omega arith) in
      let fits : Moderate (node_need size) = omega (arith, node_need-le size small) in
      elim (Bool-cases (ltb m.hn_size (node_need size))) [
        | inl t ↦
            rw (t, chosen) (expand-Resized (node_need size) fits needed.whole (ground (arith, t)))
        | inr f ↦
            rw (f, chosen)
              (subst (Outcome (node_need size))
                (sym (reduce-at_node (node_need size) fits needed.whole))
                (reduced-Resized (node_need size) fits needed.whole needed.least
                  (ground (arith, f))))
      ]

  all_released : release_all h (m.addr + 4) ≡ (m.addr + 4, (nut_heap_root_free h (m.addr + 4)).1)
  unfolding release_all
  all_released =
      let (done, _, _, _) = nut_heap_root_free-Held h m heap held in
      ap (λ z. (if is_zero z then m.addr + 4 else 0, (nut_heap_root_free h (m.addr + 4)).1)) done

  -- a reallocation to the size 0
  realloc-released :
      nut_heap_root_realloc h (m.addr + 4) 0 ≡ (m.addr + 4, (nut_heap_root_free h (m.addr + 4)).1)
  unfolding nut_heap_root_realloc
  realloc-released =
      let not_null : (m.addr + 4 == 0) ≡ false = ground arith in
      ap
        (λ b. elim b as (λ _. ℕ × Heap) [
          | true ↦ nut_heap_root_alloc h 0
          | false ↦ release_all h (m.addr + 4)
        ])
        not_null
      ∙ all_released

  -- a reallocation to a size that is not 0
  realloc-moved :
      (size : ℕ)
      → 0 < size
      → size + 16 < u32
      → let (ptr, h') = nut_heap_root_realloc h (m.addr + 4) size in
        ((ptr ≡ 0) × (h' ≡ h))
        ⊎ ((m' : HeapNode) × (ptr ≡ m'.addr + 4) × (size + 4 ≤ m'.hn_size) × Resized h h' m m')
  realloc-moved size some_size small =
      let needed = node_need-NeedFor size (omega arith) in
      let outcome =
        subst (Outcome (node_need size)) (sym (realloc-chosen size some_size))
          (chosen-Resized size small) in
      elim outcome [
        | inl none_left ↦ inl none_left
        | inr (m', ptr, room, kept) ↦ inr (m', ptr, omega (arith, room, needed.room), kept)
      ]

  -- A reallocation of a held block of a well-formed heap, to a size with `size + 16 < 2 ^ 32`. To the size
  -- 0 it frees the block and returns its old pointer, which the free list then covers. To any other size,
  -- either it returns NULL and the heap is as it was, or it returns a block with room for the size, the
  -- free list and the blocks hold the bytes that they held before, and no other block's size word has
  -- changed.
  pub nut_heap_root_realloc-Resized :
      (size : ℕ)
      → size + 16 < u32
      → let (ptr, h') = nut_heap_root_realloc h (m.addr + 4) size in
        ((size ≡ 0)
          × (ptr ≡ m.addr + 4)
          × IsHeap h'
          × ((p : ℕ) → bytes p h'.root ≡ bytes p h.root + holds p m)
          × (h'.hn_size ≡ h.hn_size))
        ⊎ ((0 < size) × (ptr ≡ 0) × (h' ≡ h))
        ⊎ ((m' : HeapNode) × (0 < size)
            × (ptr ≡ m'.addr + 4)
            × (size + 4 ≤ m'.hn_size)
            × Resized h h' m m')
  nut_heap_root_realloc-Resized zero small =
      let (done, heap', moved, same) = nut_heap_root_free-Held h m heap held in
      let e = realloc-released in
      inl (
        refl,
        ap (λ (x : ℕ × Heap). x.0) e,
        subst (λ (x : ℕ × Heap). IsHeap x.1) (sym e) heap',
        λ p. ap (λ (x : ℕ × Heap). bytes p x.1.root) e ∙ moved p,
        ap (λ (x : ℕ × Heap). x.1.hn_size) e ∙ same,
      )
  nut_heap_root_realloc-Resized (suc n) small = elim (realloc-moved (suc n) (omega arith) small) [
    | inl (null, same) ↦ inr (inl (omega arith, null, same))
    | inr (m', ptr, room, kept) ↦ inr (inr (m', omega arith, ptr, room, kept))
  ]
