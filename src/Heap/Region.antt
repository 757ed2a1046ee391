-- ===== src/Heap/Region.antt =====
-- The heap of the firmware: one region, given to NutHeapRootAdd at the start, and any history of calls.
use v85x_openamp.Base.{
  ℕ, ◌+◌, ◌≤◌, ◌<◌, ◌≡◌, refl, ap, ◌∙◌, ◌&&◌, List, [], ◌∷◌, arith, if◌then◌else◌, ltb, leb, update,
  ℤ, pos,
}
use v85x_openamp.Heap.{
  HeapNode, Heap, u32, sub32, top_align, bottom_align, prepare_user_area, nut_heap_root_add,
  nut_heap_root_free, link_in,
}
use v85x_openamp.Heap.Inv.{NodeValid, end, holds, bytes, IsHeap}
use v85x_openamp.Heap.Free.{free_walk}
use v85x_openamp.Heap.Canonical.{Sorted-unique}
use v85x_openamp.Heap.History.{Block, Op, allocate, release, resize, run, Sensible, users}
use v85x_openamp.Heap.Accounts.{
  AllBlocks, Accounts, allocate-Accounts, release-Accounts, resize-Accounts,
}

module _ (region : ℕ → ℕ) (once : (p : ℕ) → region p ≤ 1) where
  run-Accounts :
      (ops : List Op) (h : Heap) (live : List Block)
      → Sensible ops
      → Accounts region h live
      → let (h', live') = run h live ops in Accounts region h' live'
  unfolding run
  run-Accounts [] h live ok a = a
  run-Accounts (allocate size ∷ ops) h live ok a =
      run-Accounts ops _ _ ok.1 (allocate-Accounts region once h live a size (omega (arith, ok.0)))
  run-Accounts (release i ∷ ops) h live ok a =
      run-Accounts ops _ _ ok (release-Accounts region once h live a i)
  run-Accounts (resize i size ∷ ops) h live ok a =
      run-Accounts ops _ _ ok.1 (resize-Accounts region once h live a i size ok.0)

-- A user's bytes are the block's.
users-le :
    (p : ℕ) (h : Heap) (live : List Block) (ms : List HeapNode)
    → AllBlocks h live ms
    → users p live ≤ bytes p ms
users-le p h [] [] a = omega arith
users-le p h (b ∷ bs) (m ∷ ms) a = ground (arith, a.0, users-le p h bs ms a.1)
users-le p h [] (m ∷ ms) a = absurd a
users-le p h (b ∷ bs) [] a = absurd a

no_nodes :
    (p : ℕ) (h : Heap) (live : List Block) (ms : List HeapNode)
    → live ≡ []
    → AllBlocks h live ms
    → bytes p ms ≡ 0
no_nodes p h [] [] e a = refl
no_nodes p h [] (m ∷ ms) e a = absurd a
no_nodes p h (b ∷ bs) ms e a = cc

-- a heap to which no region has been added
abbrev pub empty_heap : (ℕ → ℕ) → Heap
empty_heap words = record { root = []; hn_size = words }

-- the node that a region makes
abbrev region_node : ℕ → ℕ → HeapNode
region_node addr size = record {
  addr = top_align addr;
  hn_size = bottom_align (sub32 size (sub32 (top_align addr) addr));
}

module _ (words : ℕ → ℕ) (addr size : ℕ) (low : 0 < addr) (room : 12 ≤ size)
    (high : addr + size < u32) where
  region_node-valid :
      NodeValid (region_node addr size)
      × (addr ≤ (region_node addr size).addr)
      × (end (region_node addr size) ≤ addr + size)
  region_node-valid = ground arith

  added : (nut_heap_root_add (empty_heap words) addr size).root ≡ region_node addr size ∷ []
  unfolding nut_heap_root_add link_in
  added =
      let node = region_node addr size in
      let sized = record (empty_heap words) { hn_size = update words node.addr node.hn_size } in
      let area : prepare_user_area node.addr ≡ node.addr + 4 = ground (arith, region_node-valid) in
      let freed : nut_heap_root_free sized (node.addr + 4)
          ≡ (pos 0, record sized { root = node ∷ [] }) =
        free_walk sized node region_node-valid.0 (ground arith) in
      ap (λ a. (nut_heap_root_free sized a).1.root) area ∙ ap (λ (r : ℤ × Heap). r.1.root) freed

  abbrev start : Heap
  start = nut_heap_root_add (empty_heap words) addr size

  start-bytes : (p : ℕ) → bytes p start.root ≡ holds p (region_node addr size)
  start-bytes p = rw added (omega arith)

  start-Accounts : Accounts (λ p. holds p (region_node addr size)) start []
  start-Accounts = record {
    nodes = [];
    heap = rw added (ground (arith, low, region_node-valid), region_node-valid.0, tt);
    blocks = tt;
    whole = λ p. omega (arith, start-bytes p);
  }

  module _ (ops : List Op) (ok : Sensible ops) where
    after-Accounts :
        let (h', live') = run start [] ops in
        Accounts (λ p. holds p (region_node addr size)) h' live'
    after-Accounts =
        run-Accounts (λ p. holds p (region_node addr size)) (λ p. ground arith) ops start [] ok
          start-Accounts

    -- After any history of allocations, reallocations, also those to the size 0, and frees of blocks in
    -- use, all sizes with `size + 16 < 2 ^ 32`, on an empty heap that was given one region of at least 12
    -- bytes, which does not start at 0 and ends below `2 ^ 32`: the free list is well formed, and a byte
    -- is in the user area of one block at most, is not free then, and lies in the region.
    pub run-apart :
        let (h', live') = run start [] ops in
        IsHeap h'
        × ((p : ℕ)
            → users p live' + bytes p h'.root
              ≤ (if leb addr p && ltb p (addr + size) then 1 else 0))
    run-apart =
        let a = after-Accounts in
        (a.heap, λ p. ground (arith, a.whole p, users-le p _ _ a.nodes a.blocks, region_node-valid))

    -- When a history of allocations, reallocations and frees of blocks in use, all sizes with
    -- `size + 16 < 2 ^ 32`, ends with no block in use, the free list is the one node that the region made:
    -- nothing is lost, and nothing stays fragmented. The heap was empty before and the region has at least
    -- 12 bytes, does not start at 0 and ends below `2 ^ 32`.
    pub run_restores : (run start [] ops).1 ≡ [] → (run start [] ops).0.root ≡ start.root
    run_restores none_left =
        let a = after-Accounts in
        Sorted-unique 0 _ _ a.heap start-Accounts.heap
          λ p. omega (arith, a.whole p, start-bytes p, no_nodes p _ _ a.nodes none_left a.blocks)
