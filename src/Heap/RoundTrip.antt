-- ===== src/Heap/RoundTrip.antt =====
-- NutHeapRootFree after NutHeapRootAlloc.
use v85x_openamp.Base.{
  ℕ, zero, suc, ◌+◌, ◌-◌, ◌≤◌, ◌<◌, ◌≡◌, refl, sym, ap, ◌∙◌, List, [], ◌∷◌, arith, leb, none, some,
  Bool-cases, Option-cases, inl, inr, ◌≢◌, pos,
}
use v85x_openamp.Heap.{
  HeapNode, Heap, Fit, prepare_user_area, relinked, node_size, link_in, set_link, node_need,
  take_fit, nut_heap_root_alloc, nut_heap_root_free,
}
use v85x_openamp.Heap.Inv.{end, Sorted, IsHeap, From, Sorted-From}
use v85x_openamp.Heap.Walk.{Fits, AllFit, find_fit-Fits}
use v85x_openamp.Heap.Alloc.{
  NeedFor, node_need-NeedFor, Moderate, rest, part, fit-valid, block_node, take_fit-Taken, found,
}
use v85x_openamp.Heap.Free.{free_walk}

From-above :
    (i lo : ℕ) (xs : List HeapNode) (n : HeapNode) (t : List HeapNode)
    → From i xs (n ∷ t)
    → Sorted lo xs
    → lo < n.addr
From-above zero lo xs n t at_ s = (rw at_ at s).0
From-above (suc i) lo [] n t at_ s = absurd at_
From-above (suc i) lo (x ∷ xs) n t at_ s = omega (arith, From-above i (end x) xs n t at_ s.2, s.0)

-- A block that stands where a list has a gap is linked in at that place.
link_in-set_link :
    (i lo : ℕ) (xs : List HeapNode) (n : HeapNode) (t zs : List HeapNode) (m : HeapNode)
    → From i xs (n ∷ t)
    → Sorted lo xs
    → m.addr ≡ n.addr
    → link_in m zs ≡ some (n ∷ t)
    → link_in m (set_link i zs xs) ≡ some xs
unfolding set_link link_in
link_in-set_link zero lo xs n t zs m at_ s same e = e ∙ rw at_ refl
link_in-set_link (suc i) lo [] n t zs m at_ s same e = absurd at_
link_in-set_link (suc i) lo (x ∷ xs) n t zs m at_ s same e =
    let above = From-above i (end x) xs n t at_ s.2 in
    let later = link_in-set_link i (end x) xs n t zs m at_ s.2 same e in
    ground (arith, later, above, same, s.1)

relink_part :
    (lo need : ℕ) (n : HeapNode) (t : List HeapNode)
    → Sorted lo (n ∷ t)
    → 0 < need
    → need ≤ n.hn_size
    → link_in (part need n) (rest need n ∷ t) ≡ some (n ∷ t)
unfolding link_in
relink_part lo need n t s some_room fits =
    let whole : need + (n.hn_size - need) ≡ n.hn_size = omega (arith, fits) in
    ground (arith, whole, s.1, some_room, fits)

relink_whole :
    (lo : ℕ) (n : HeapNode) (t : List HeapNode) → Sorted lo (n ∷ t) → link_in n t ≡ some (n ∷ t)
unfolding link_in
relink_whole lo n [] s = refl
relink_whole lo n (x ∷ xs) s = ground (arith, s.1, s.2)

module _ (h : Heap) (size need : ℕ) (needed : NeedFor size need) (fit : Fit) (heap : IsHeap h)
    (fits : Fits need h.root fit) where
  take-relink : link_in (block_node need fit.node) (take_fit h need fit).root ≡ some h.root
  unfolding take_fit
  take-relink =
      let (lo, s) = Sorted-From fit.fpp 0 h.root (fit.node ∷ fit.hn_next) fits.0 heap in
      elim (Bool-cases (leb node_size (fit.node.hn_size - need))) [
        | inl t ↦
            rw (t, take_fit)
              (link_in-set_link fit.fpp 0 h.root fit.node fit.hn_next _ _ fits.0 heap refl
                (relink_part lo need fit.node fit.hn_next s (omega (arith, needed.least)) fits.1))
        | inr f ↦
            rw (f, take_fit)
              (link_in-set_link fit.fpp 0 h.root fit.node fit.hn_next _ _ fits.0 heap refl
                (relink_whole lo fit.node fit.hn_next s))
      ]

  take-free :
      nut_heap_root_free (take_fit h need fit) (fit.node.addr + 4)
      ≡ (pos 0, record (take_fit h need fit) { root = h.root })
  take-free =
      let taken = take_fit-Taken h size need needed fit heap fits in
      let same : (block_node need fit.node).addr ≡ fit.node.addr = ground arith in
      ap (λ a. nut_heap_root_free (take_fit h need fit) (a + 4)) (sym same)
      ∙ free_walk (take_fit h need fit) (block_node need fit.node) taken.valid taken.header
      ∙ ap (relinked (take_fit h need fit)) take-relink

-- What an allocation of a size with `size + 16 < 2 ^ 32` takes of a well-formed heap, where it does not
-- return NULL, a free gives back: the free list is again what it was, node by node.
pub alloc-free :
    (h : Heap) (size : ℕ)
    → IsHeap h
    → Moderate size
    → let (ptr, h') = nut_heap_root_alloc h size in
      ptr ≢ 0
      → (after : Heap) × (nut_heap_root_free h' ptr ≡ (pos 0, after)) × (after.root ≡ h.root)
unfolding nut_heap_root_alloc
alloc-free h size heap small got = elim (Option-cases (found h size)) [
  | inl e ↦ absurd (got (rw (e, nut_heap_root_alloc) refl))
  | inr (fit, e) ↦
      let fits : AllFit (node_need size) h.root (some fit) =
        rw e at (find_fit-Fits (node_need size) h.root h.root 0 none refl tt) in
      let needed = node_need-NeedFor size small in
      let (above, v) = fit-valid h size (node_need size) needed fit heap fits in
      let ptr : prepare_user_area fit.node.addr ≡ fit.node.addr + 4 = ground (arith, v) in
      (
        record (take_fit h (node_need size) fit) { root = h.root },
        rw (e, nut_heap_root_alloc, ptr) (take-free h size (node_need size) needed fit heap fits),
        refl,
      )
]
