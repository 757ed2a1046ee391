-- ===== src/Heap/Aligned.antt =====
-- NutHeapAllocAligned and NutHeapFreeAligned.
use native.Mathlib.Nat.{one-le-pow, mod-lt}
use v85x_openamp.Base.Bits.{bit_and_high_mask}
use v85x_openamp.Base.{
  ℕ, ◌+◌, ◌-◌, ◌%◌, ◌^◌, ◌≤◌, ◌<◌, ◌≡◌, refl, sym, ap, ◌∙◌, arith, if◌then◌else◌, ◌==◌, update, ℤ,
  true, false, inl, inr, ◌⊎◌, ◌≢◌,
}
use v85x_openamp.Heap.{HeapNode, Heap, u32, add32, sub32, nut_heap_root_alloc, nut_heap_root_free}
use v85x_openamp.Heap.Realloc.{align_down, nut_heap_alloc_aligned, nut_heap_free_aligned}
use v85x_openamp.Heap.Inv.{end, IsHeap}
use v85x_openamp.Heap.Alloc.{Moderate, nut_heap_root_alloc-Taken, Taken}
use v85x_openamp.Heap.RoundTrip.{alloc-free}

align_down_lem : (k x : ℕ) → k ≤ 32 → x < u32 → align_down x (2 ^ k) + x % 2 ^ k ≡ x
align_down_lem k x h small = ground (arith, bit_and_high_mask k 32 x h)

multiple : (n x y : ℕ) → 0 < n → y + x % n ≡ x → y % n ≡ 0
multiple n x y some_n h = grind arith

-- the bytes that are asked for
abbrev pub padded : ℕ → ℕ → ℕ
padded size k = add32 size (2 ^ k - 1 + 4)

-- where the aligned pointer is in the block at `p1`
abbrev aligned : ℕ → ℕ → ℕ
aligned p1 k = align_down (add32 p1 (2 ^ k - 1 + 4)) (2 ^ k)

aligned_lem :
    (p1 k : ℕ)
    → k ≤ 32
    → p1 + 2 ^ k + 3 < u32
    → (aligned p1 k % 2 ^ k ≡ 0) × (p1 + 4 ≤ aligned p1 k) × (aligned p1 k ≤ p1 + 2 ^ k + 3)
aligned_lem p1 k width high =
    let some_n : 1 ≤ 2 ^ k = one-le-pow k 2 (omega arith) in
    let sum : add32 p1 (2 ^ k - 1 + 4) ≡ p1 + 2 ^ k + 3 = ground (arith, some_n, high) in
    let split = align_down_lem k (add32 p1 (2 ^ k - 1 + 4)) width (omega (arith, sum, high)) in
    (
      multiple (2 ^ k) (add32 p1 (2 ^ k - 1 + 4)) (aligned p1 k) some_n split,
      omega (arith, sum, split, some_n, mod-lt (add32 p1 (2 ^ k - 1 + 4)) some_n),
      omega (arith, sum, split),
    )

free_aligned-word :
    (h : Heap) (words : ℕ → ℕ) (ptr p1 : ℕ)
    → (nut_heap_free_aligned h (update words (sub32 ptr 4) p1) ptr).root
      ≡ (nut_heap_root_free h p1).1.root
unfolding nut_heap_free_aligned
free_aligned-word h words ptr p1 =
    let same : (sub32 ptr 4 == sub32 ptr 4) ≡ true = ground arith in
    ap (λ b. (nut_heap_root_free h (if b then p1 else words (sub32 ptr 4))).1.root) same

-- An aligned allocation of `2 ^ k`, for sizes that do not wrap: it returns NULL and leaves the heap, or
-- it returns a multiple of the alignment with `size` bytes behind it and the word for the original
-- pointer before it, all inside the block that was taken; and freeing that pointer restores the free
-- list.
pub nut_heap_alloc_aligned-inside :
    (h : Heap) (words : ℕ → ℕ) (size k : ℕ)
    → IsHeap h
    → k < 32
    → size + 2 ^ k + 16 < u32
    → let (ptr, h', words') = nut_heap_alloc_aligned h words size (2 ^ k) in
      ((ptr ≡ 0) × (h' ≡ h))
      ⊎ ((m : HeapNode) × Taken h h' (padded size k) m
          × (ptr % 2 ^ k ≡ 0)
          × (m.addr + 4 ≤ ptr - 4)
          × (ptr + size ≤ end m)
          × ((nut_heap_free_aligned h' words' ptr).root ≡ h.root))
unfolding nut_heap_alloc_aligned
nut_heap_alloc_aligned-inside h words size k heap width small =
    elim (nut_heap_root_alloc-Taken h (padded size k) heap fits) [
      | inl (null, same, _) ↦ rw (at_null null) (inl (refl, same))
      | inr (m, ptr, taken, _) ↦
          let (multiple_of, above, inside) =
            aligned_lem (m.addr + 4) k (omega arith)
              (omega (arith, taken.room, taken.valid.inside, sum)) in
          let h1 = (nut_heap_root_alloc h (padded size k)).1 in
          let not_null : (nut_heap_root_alloc h (padded size k)).0 ≢ 0 =
            λ e. omega (arith, ptr, e) in
          let (after, freed, root) = alloc-free h (padded size k) heap fits not_null in
          rw (at_block not_null, ptr)
            (inr (
              m,
              taken,
              multiple_of,
              omega (arith, above),
              omega (arith, inside, taken.room, sum),
              free_aligned-word h1 words _ (m.addr + 4)
                  ∙ ap (λ (r : ℤ × Heap). r.1.root) (ap (nut_heap_root_free h1) (sym ptr) ∙ freed)
                  ∙ root,
            ))
    ]
  where
    at_null :
        (nut_heap_root_alloc h (padded size k)).0 ≡ 0
        → nut_heap_alloc_aligned h words size (2 ^ k)
          ≡ (0, (nut_heap_root_alloc h (padded size k)).1, words)
    at_null null = rw (nut_heap_alloc_aligned, null) refl

    at_block :
        (nut_heap_root_alloc h (padded size k)).0 ≢ 0
        → nut_heap_alloc_aligned h words size (2 ^ k) ≡ (
          aligned (nut_heap_root_alloc h (padded size k)).0 k,
          (nut_heap_root_alloc h (padded size k)).1,
          update words
              (sub32 (aligned (nut_heap_root_alloc h (padded size k)).0 k) 4)
              (nut_heap_root_alloc h (padded size k)).0,
        )
    at_block ne =
        let test : ((nut_heap_root_alloc h (padded size k)).0 == 0) ≡ false = ground (arith, ne) in
        rw (nut_heap_alloc_aligned, test) refl

    some_n : 1 ≤ 2 ^ k
    some_n = one-le-pow k 2 (omega arith)

    sum : padded size k ≡ size + 2 ^ k + 3
    sum = ground (arith, some_n, small)

    fits : Moderate (padded size k)
    fits = omega (arith, sum, small)
