-- ===== src/Heap/Realloc.antt =====
-- utils/nutheap.c: NutHeapRootRealloc, and the two calls for aligned blocks at the end of the file. The
-- bytes that a moved block takes along are not modelled.
use v85x_openamp.Base.{
  ℕ, suc, ◌+◌, ◌-◌, Bool, true, false, ◌&&◌, List, [], ◌∷◌, if◌then◌else◌, ltb, leb, ◌==◌, update,
  is_zero, bit_and,
}
use v85x_openamp.Heap.{
  u32, HeapNode, Heap, add32, sub32, node_size, node_need, set_link, node_of, prepare_user_area,
  nut_heap_root_alloc, nut_heap_root_free,
}

-- the walk to the first node that is not below the block
unfoldable pub seek : ℕ → List HeapNode → ℕ → ℕ × List HeapNode
seek fnode [] npp = (npp, [])
seek fnode (node ∷ rest) npp = elim (ltb node.addr fnode) [
  | true ↦ seek fnode rest (suc npp)
  | false ↦ (npp, node ∷ rest)
]

-- the block takes `size_miss` bytes of the free node behind it, or all of it
unfoldable pub take_behind : Heap → ℕ → ℕ → ℕ → HeapNode → List HeapNode → Heap
unfolding set_link
take_behind h fnode size_miss npp node hn_next =
    if leb node_size (node.hn_size - size_miss)
    then record {
      root =
          set_link npp
            (record { addr = add32 node.addr size_miss; hn_size = node.hn_size - size_miss }
              ∷ hn_next)
            h.root;
      hn_size = update h.hn_size fnode (add32 (h.hn_size fnode) size_miss);
    }
    else record {
      root = set_link npp hn_next h.root;
      hn_size = update h.hn_size fnode (add32 (h.hn_size fnode) node.hn_size);
    }

-- A new block, to which the contents move. `size` already counts the overhead, and is passed on so.
unfoldable pub relocate : Heap → ℕ → ℕ → ℕ × Heap
unfolding nut_heap_root_alloc nut_heap_root_free
relocate h block size =
    let (newmem, h') = nut_heap_root_alloc h size in
    elim (newmem == 0) [ true ↦ (0, h') | false ↦ (newmem, (nut_heap_root_free h' block).1) ]

-- a free node that begins where the block ends, and has the bytes that it lacks
abbrev pub fits_behind : Heap → ℕ → ℕ → HeapNode → Bool
fits_behind h fnode size_miss node =
    leb size_miss node.hn_size && add32 fnode (h.hn_size fnode) == node.addr

unfoldable pub expand_at : Heap → ℕ → ℕ → ℕ × List HeapNode → ℕ × Heap
unfolding take_behind relocate
expand_at h block size (npp, []) = relocate h block size
expand_at h block size (npp, node ∷ hn_next) =
    let fnode = node_of block in
    let size_miss = size - h.hn_size fnode in
    elim (fits_behind h fnode size_miss node) [
      | true ↦ (block, take_behind h fnode size_miss npp node hn_next)
      | false ↦ relocate h block size
    ]

-- Expansion.
unfoldable pub expand : Heap → ℕ → ℕ → ℕ × Heap
unfolding expand_at seek
expand h block size = expand_at h block size (seek (node_of block) h.root 0)

-- Reduction.
unfoldable pub reduce : Heap → ℕ → ℕ → ℕ × Heap
unfolding nut_heap_root_free
reduce h block size =
    let fnode = node_of block in
    let node = add32 fnode size in
    let cut = record h { hn_size = update h.hn_size node (h.hn_size fnode - size) } in
    let released = (nut_heap_root_free cut (prepare_user_area node)).1 in
    if ltb size (sub32 (h.hn_size fnode) node_size)
    then (block, record released { hn_size = update released.hn_size fnode size })
    else (block, h)

-- A block that is to become empty is freed; NULL is returned where that fails.
unfoldable pub release_all : Heap → ℕ → ℕ × Heap
unfolding nut_heap_root_free
release_all h block =
    let (ret, h') = nut_heap_root_free h block in ((if is_zero ret then block else 0), h')

unfoldable pub nut_heap_root_realloc : Heap → ℕ → ℕ → ℕ × Heap
unfolding nut_heap_root_alloc release_all expand reduce node_need
nut_heap_root_realloc h block size =
    let need = node_need size in
    elim (block == 0) [
      | true ↦ nut_heap_root_alloc h size
      | false ↦ elim (size == 0) [
        | true ↦ release_all h block
        | false ↦ elim (ltb (h.hn_size (node_of block)) need) [
          | true ↦ expand h block need
          | false ↦ reduce h block need
        ]
      ]
    ]

-- `x & ~(alignment - 1)`
abbrev pub align_down : ℕ → ℕ → ℕ
align_down x alignment = bit_and x (u32 - alignment)

-- The words in user memory are a function of their address: the one before the aligned block keeps the
-- block that was allocated.
unfoldable pub nut_heap_alloc_aligned : Heap → (ℕ → ℕ) → ℕ → ℕ → ℕ × Heap × (ℕ → ℕ)
unfolding nut_heap_root_alloc
nut_heap_alloc_aligned h words size alignment =
    let offset = alignment - 1 + 4 in
    let (p1, h') = nut_heap_root_alloc h (add32 size offset) in
    let p2 = align_down (add32 p1 offset) alignment in
    if p1 == 0 then (0, h', words) else (p2, h', update words (sub32 p2 4) p1)

unfoldable pub nut_heap_free_aligned : Heap → (ℕ → ℕ) → ℕ → Heap
unfolding nut_heap_root_free
nut_heap_free_aligned h words pointer = (nut_heap_root_free h (words (sub32 pointer 4))).1
