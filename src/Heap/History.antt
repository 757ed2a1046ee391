-- ===== src/Heap/History.antt =====
-- A client of the heap: any history of allocations, reallocations and frees.
use v85x_openamp.Base.{
  ℕ, zero, suc, ◌+◌, ◌<◌, ◌&&◌, List, [], ◌∷◌, if◌then◌else◌, ltb, leb, ◌==◌, Option, none, some,
}
use v85x_openamp.Heap.{Heap, u32, nut_heap_root_alloc, nut_heap_root_free}
use v85x_openamp.Heap.Realloc.{nut_heap_root_realloc}

-- A block as its user has it: the pointer, and the size that was asked for.
pub record Block : Type 0 where
  pub ptr : ℕ
  pub size : ℕ

-- The blocks are named by their place in the list of those that are in use.
pub data Op : Type 0 where
  allocate release : ℕ → Op
  resize : ℕ → ℕ → Op

unfoldable pub nth : ℕ → List Block → Option Block
nth i [] = none
nth zero (b ∷ bs) = some b
nth (suc i) (b ∷ bs) = nth i bs

unfoldable pub remove : ℕ → List Block → List Block
remove i [] = []
remove zero (b ∷ bs) = bs
remove (suc i) (b ∷ bs) = b ∷ remove i bs

-- A call's result is a block in use, unless it is NULL. A block reallocated to the size 0 is free.
abbrev pub given : ℕ → ℕ → List Block → List Block → List Block
given ptr size fresh old = if ptr == 0 then old else record { ptr = ptr; size = size } ∷ fresh

unfoldable pub perform : Heap → List Block → Op → Heap × List Block
unfolding nth remove nut_heap_root_alloc nut_heap_root_free nut_heap_root_realloc
perform h live (allocate size) =
    let (ptr, h') = nut_heap_root_alloc h size in (h', given ptr size live live)
perform h live (release i) = elim (nth i live) [
  | none ↦ (h, live)
  | some b ↦ ((nut_heap_root_free h b.ptr).1, remove i live)
]
perform h live (resize i size) = elim (nth i live) [
  | none ↦ (h, live)
  | some b ↦
      let (ptr, h') = nut_heap_root_realloc h b.ptr size in
      (h', if size == 0 then remove i live else given ptr size (remove i live) live)
]

unfoldable pub run : Heap → List Block → List Op → Heap × List Block
unfolding perform
run h live [] = (h, live)
run h live (op ∷ ops) = let (h', live') = perform h live op in run h' live' ops

-- sizes whose arithmetic does not wrap
abbrev pub Sensible : List Op → Type 0
Sensible [] = Unit
Sensible (allocate size ∷ ops) = (size + 16 < u32) × Sensible ops
Sensible (release i ∷ ops) = Sensible ops
Sensible (resize i size ∷ ops) = (size + 16 < u32) × Sensible ops

-- the number of blocks whose user may use the byte `p`
abbrev pub users : ℕ → List Block → ℕ
users p [] = 0
users p (b ∷ bs) = (if leb b.ptr p && ltb p (b.ptr + b.size) then 1 else 0) + users p bs
