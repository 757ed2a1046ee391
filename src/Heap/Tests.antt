-- ===== src/Heap/Tests.antt =====
-- The theorems on the heap at small heaps.
use v85x_openamp.Base.{
  ℕ, ◌+◌, ◌≤◌, ◌<◌, ◌≡◌, ◌≢◌, ◌⊎◌, ◌%◌, ◌-◌, ◌^◌, refl, List, [], ◌∷◌, arith, pos, negsuc, ◌&&◌,
  ltb, leb, if◌then◌else◌,
}
use v85x_openamp.Heap.{
  HeapNode, Heap, nut_heap_root_alloc, nut_heap_root_free, nut_heap_root_region_available,
  nut_heap_root_available, nut_heap_root_add, node_need,
}
use v85x_openamp.Heap.Realloc.{nut_heap_root_realloc, nut_heap_alloc_aligned, nut_heap_free_aligned}
use v85x_openamp.Heap.Inv.{holds, IsHeap, bytes, end}
use v85x_openamp.Heap.Walk.{In}
use v85x_openamp.Heap.Alloc.{Taken, BestFit, nut_heap_root_alloc-Taken}
use v85x_openamp.Heap.Free.{Held, nut_heap_root_free_twice}
use v85x_openamp.Heap.RoundTrip.{alloc-free}
use v85x_openamp.Heap.Grow.{Resized}
use v85x_openamp.Heap.Resize.{nut_heap_root_realloc-Resized}
use v85x_openamp.Heap.History.{Op, allocate, release, resize, run, users, perform, nth, remove}
use v85x_openamp.Heap.Region.{empty_heap, run-apart, run_restores}
use v85x_openamp.Heap.Aligned.{padded, nut_heap_alloc_aligned-inside}
use v85x_openamp.Heap.Available.{region_available-alloc}

abbrev a_node : ℕ → ℕ → HeapNode
a_node addr size = record { addr = addr; hn_size = size }

-- two free nodes, with a block of 28 bytes between them
abbrev a_heap : Heap
a_heap = record { root = a_node 1000 64 ∷ a_node 1092 40 ∷ []; hn_size = λ a. 28 }

abbrev a_block : HeapNode
a_block = a_node 1064 28

a_heap-IsHeap : IsHeap a_heap
a_heap-IsHeap = omega arith

a_block-Held : Held a_heap a_block
a_block-Held = record {
  valid = omega arith;
  above = omega arith;
  header = refl;
  apart = λ p. ground arith;
}

abbrev a_region : Heap
a_region = nut_heap_root_add (empty_heap (λ a. 0)) 1001 200

abbrev some_ops : List Op
some_ops = allocate 20 ∷ allocate 30 ∷ resize 1 60 ∷ resize 1 0 ∷ resize 0 4 ∷ release 0 ∷ []

run-apart_example :
    IsHeap (run a_region [] some_ops).0
    × ((p : ℕ)
        → users p (run a_region [] some_ops).1 + bytes p (run a_region [] some_ops).0.root
          ≤ (if leb 1001 p && ltb p 1201 then 1 else 0))
run-apart_example =
    run-apart (λ a. 0) 1001 200 (omega arith) (omega arith) (omega arith) some_ops (omega arith)

run_restores_example : (run a_region [] some_ops).0.root ≡ a_region.root
unfolding run perform nth remove nut_heap_root_alloc nut_heap_root_free nut_heap_root_realloc
    nut_heap_root_add
run_restores_example =
    run_restores (λ a. 0) 1001 200 (omega arith) (omega arith) (omega arith) some_ops (omega arith)
      refl

nut_heap_root_alloc-Taken_example :
    (((nut_heap_root_alloc a_heap 33).0 ≡ 0)
      × ((nut_heap_root_alloc a_heap 33).1 ≡ a_heap)
      × ((n : HeapNode) → In n a_heap.root → n.hn_size < node_need 33))
    ⊎ ((m : HeapNode) × ((nut_heap_root_alloc a_heap 33).0 ≡ m.addr + 4)
        × Taken a_heap (nut_heap_root_alloc a_heap 33).1 33 m
        × BestFit a_heap 33 m.addr)
nut_heap_root_alloc-Taken_example = nut_heap_root_alloc-Taken a_heap 33 a_heap-IsHeap (omega arith)

-- the smaller node is taken whole, though it is the second
best_fit_runs : (nut_heap_root_alloc a_heap 33).1.root ≡ a_node 1000 64 ∷ []
unfolding nut_heap_root_alloc
best_fit_runs = refl

alloc-free_example :
    (after : Heap) × (nut_heap_root_free
        (nut_heap_root_alloc a_heap 10).1
        (nut_heap_root_alloc a_heap 10).0
      ≡ (pos 0, after))
    × (after.root ≡ a_heap.root)
unfolding nut_heap_root_alloc
alloc-free_example = alloc-free a_heap 10 a_heap-IsHeap (omega arith) (λ e. omega (arith, e))

nut_heap_root_free_twice_example :
    nut_heap_root_free (nut_heap_root_free a_heap 1068).1 1068
    ≡ (negsuc 0, (nut_heap_root_free a_heap 1068).1)
nut_heap_root_free_twice_example =
    nut_heap_root_free_twice a_heap a_block a_heap-IsHeap a_block-Held

-- a free that joins both neighbours
free_joins : (nut_heap_root_free a_heap 1068).1.root ≡ a_node 1000 132 ∷ []
unfolding nut_heap_root_free
free_joins = refl

nut_heap_root_realloc-Resized_example :
    let (ptr, h') = nut_heap_root_realloc a_heap 1068 40 in
    ((◌≡◌ {A = ℕ} 40 0)
      × (ptr ≡ 1068)
      × IsHeap h'
      × ((p : ℕ) → bytes p h'.root ≡ bytes p a_heap.root + holds p a_block)
      × (h'.hn_size ≡ a_heap.hn_size))
    ⊎ ((0 < 40) × (ptr ≡ 0) × (h' ≡ a_heap))
    ⊎ ((m' : HeapNode) × (0 < 40)
        × (ptr ≡ m'.addr + 4)
        × (44 ≤ m'.hn_size)
        × Resized a_heap h' a_block m')
nut_heap_root_realloc-Resized_example =
    nut_heap_root_realloc-Resized a_heap a_block a_heap-IsHeap a_block-Held 40 (omega arith)

nut_heap_alloc_aligned-inside_example :
    let (ptr, h', words') = nut_heap_alloc_aligned a_heap (λ a. 0) 20 (2 ^ 4) in
    ((ptr ≡ 0) × (h' ≡ a_heap))
    ⊎ ((m : HeapNode) × Taken a_heap h' (padded 20 4) m
        × (ptr % 2 ^ 4 ≡ 0)
        × (m.addr + 4 ≤ ptr - 4)
        × (ptr + 20 ≤ end m)
        × ((nut_heap_free_aligned h' words' ptr).root ≡ a_heap.root))
nut_heap_alloc_aligned-inside_example =
    nut_heap_alloc_aligned-inside a_heap (λ a. 0) 20 4 a_heap-IsHeap (omega arith) (omega arith)

region_available-alloc_example :
    (60 ≤ nut_heap_root_region_available a_heap → (nut_heap_root_alloc a_heap 60).0 ≢ 0)
    × (nut_heap_root_region_available a_heap < 60 → (nut_heap_root_alloc a_heap 60).0 ≡ 0)
region_available-alloc_example =
    region_available-alloc a_heap 60 a_heap-IsHeap (λ e. cc) (omega arith)

-- a size that wraps is given a block of eight bytes
huge_size_runs :
    (nut_heap_root_alloc a_heap 4294967292).1.root ≡ a_node 1000 64 ∷ a_node 1100 32 ∷ []
unfolding nut_heap_root_alloc
huge_size_runs = refl

-- with no free node the largest region is reported as nearly the whole address space
no_region_runs : nut_heap_root_region_available (empty_heap (λ a. 0)) ≡ 4294967292
unfolding nut_heap_root_region_available
no_region_runs = refl

available_runs : nut_heap_root_available a_heap ≡ 96
unfolding nut_heap_root_available
available_runs = refl
