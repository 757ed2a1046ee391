-- ===== src/Heap/Accounts.antt =====
-- The heap and the blocks in use share the bytes of a region out among them.
use mathlib.Core.Path.{subst}
use mathlib.Core.Option.{some-injective}
use v85x_openamp.Base.{
  ◌==◌, true, false, ℕ, zero, suc, ◌+◌, ◌≤◌, ◌<◌, ◌≡◌, refl, sym, ap, ◌∙◌, List, [], ◌∷◌, arith,
  some, Option-cases, inl, inr,
}
use v85x_openamp.Heap.{HeapNode, Heap, u32}
use v85x_openamp.Heap.Inv.{NodeValid, holds, bytes, IsHeap}
use v85x_openamp.Heap.Alloc.{Moderate, nut_heap_root_alloc-Taken}
use v85x_openamp.Heap.Free.{Held, nut_heap_root_free-Held}
use v85x_openamp.Heap.Resize.{nut_heap_root_realloc-Resized}
use v85x_openamp.Heap.History.{Block, allocate, release, resize, nth, remove, given, perform}

-- the block `b` is that of the node `m`
pub record BlockOf (h : Heap) (b : Block) (m : HeapNode) : Type 0 where
  pub ptr : b.ptr ≡ m.addr + 4
  pub room : b.size + 4 ≤ m.hn_size
  pub valid : NodeValid m
  pub above : 0 < m.addr
  pub header : h.hn_size m.addr ≡ m.hn_size

abbrev pub AllBlocks : Heap → List Block → List HeapNode → Type 0
AllBlocks h [] [] = Unit
AllBlocks h (b ∷ bs) (m ∷ ms) = BlockOf h b m × AllBlocks h bs ms
AllBlocks h _ _ = ⊥

-- The free list and the blocks in use hold the bytes of `region`.
pub record Accounts (region : ℕ → ℕ) (h : Heap) (live : List Block) : Type 0 where
  pub nodes : List HeapNode
  pub heap : IsHeap h
  pub blocks : AllBlocks h live nodes
  pub whole : (p : ℕ) → bytes p h.root + bytes p nodes ≡ region p

AllBlocks-frame :
    (h h' : Heap) (live : List Block) (ms : List HeapNode)
    → ((q : ℕ) → 0 < bytes q ms → h'.hn_size q ≡ h.hn_size q)
    → AllBlocks h live ms
    → AllBlocks h' live ms
AllBlocks-frame h h' [] [] same a = tt
AllBlocks-frame h h' (b ∷ bs) (m ∷ ms) same a = (
  record {
    ptr = a.0.ptr;
    room = a.0.room;
    valid = a.0.valid;
    above = a.0.above;
    header = same m.addr (ground (arith, a.0.valid)) ∙ a.0.header;
  },
  AllBlocks-frame h h' bs ms (λ q some_byte. same q (omega (arith, some_byte))) a.1,
)
AllBlocks-frame h h' [] (m ∷ ms) same a = absurd a
AllBlocks-frame h h' (b ∷ bs) [] same a = absurd a

-- one block apart from the others
record Picked (h : Heap) (b : Block) (others : List Block) (ms : List HeapNode) : Type 0 where
  pub node : HeapNode
  pub rest : List HeapNode
  pub block : BlockOf h b node
  pub blocks : AllBlocks h others rest
  pub split : (p : ℕ) → bytes p ms ≡ holds p node + bytes p rest

pick :
    (h : Heap) (i : ℕ) (live : List Block) (ms : List HeapNode) (b : Block)
    → AllBlocks h live ms
    → nth i live ≡ some b
    → Picked h b (remove i live) ms
unfolding nth remove
pick h i [] ms b a e = ground (arith, e)
pick h zero (x ∷ xs) (m ∷ ms) b a e = record {
  node = m;
  rest = ms;
  block = subst (λ c. BlockOf h c m) (some-injective x b e) a.0;
  blocks = a.1;
  split = λ p. refl;
}
pick h (suc i) (x ∷ xs) (m ∷ ms) b a e =
    let later = pick h i xs ms b a.1 e in
    record {
      node = later.node;
      rest = m ∷ later.rest;
      block = later.block;
      blocks = (a.0, later.blocks);
      split = λ p. omega (arith, later.split p);
    }
pick h zero (x ∷ xs) [] b a e = absurd a
pick h (suc i) (x ∷ xs) [] b a e = absurd a

module _ (region : ℕ → ℕ) (once : (p : ℕ) → region p ≤ 1) (h : Heap) (live : List Block)
    (a : Accounts region h live) where
  -- NULL was returned
  unchanged :
      (ptr size : ℕ) (h' : Heap) (fresh : List Block)
      → ptr ≡ 0
      → h' ≡ h
      → Accounts region h' (given ptr size fresh live)
  unchanged ptr size h' fresh null same =
      subst (λ (x : ℕ × Heap). Accounts region x.1 (given x.0 size fresh live))
        (λ i. (sym null i, sym same i)) a

  -- A new block `m` joins the blocks `others` of the nodes `rest`.
  joined :
      (ptr size : ℕ) (h' : Heap) (others : List Block) (m : HeapNode) (rest : List HeapNode)
      → BlockOf h' (record { ptr = ptr; size = size }) m
      → IsHeap h'
      → AllBlocks h others rest
      → ((q : ℕ) → 0 < bytes q rest → h'.hn_size q ≡ h.hn_size q)
      → ((p : ℕ) → bytes p h'.root + (holds p m + bytes p rest) ≡ region p)
      → Accounts region h' (given ptr size others live)
  joined ptr size h' others m rest block heap' blocks frame whole =
      let used : given ptr size others live ≡ record { ptr = ptr; size = size } ∷ others =
        ground (arith, block.ptr) in
      rw used (record {
        nodes = m ∷ rest;
        heap = heap';
        blocks = (block, AllBlocks-frame h h' others rest frame blocks);
        whole = whole;
      })

  pub allocate-Accounts :
      (size : ℕ)
      → Moderate size
      → let (h', live') = perform h live (allocate size) in Accounts region h' live'
  unfolding perform
  allocate-Accounts size small = elim (nut_heap_root_alloc-Taken h size a.heap small) [
    | inl (null, same, _) ↦ unchanged _ size _ live null same
    | inr (m, ptr, taken, _) ↦
        joined _ size _ live m a.nodes
          (record {
            ptr = ptr;
            room = taken.room;
            valid = taken.valid;
            above = taken.above;
            header = taken.header;
          })
          taken.heap a.blocks
          (λ q some_byte. taken.frame q (omega (arith, a.whole q, once q, some_byte)))
          (λ p. omega (arith, a.whole p, taken.moved p))
  ]

  -- a block in use can be freed
  Picked-Held : (b : Block) (others : List Block) (k : Picked h b others a.nodes) → Held h k.node
  Picked-Held b others k = record {
    valid = k.block.valid;
    above = k.block.above;
    header = k.block.header;
    apart = λ p. omega (arith, a.whole p, k.split p, once p);
  }

  pub release-Accounts :
      (i : ℕ) → let (h', live') = perform h live (release i) in Accounts region h' live'
  unfolding perform
  release-Accounts i = elim (Option-cases (nth i live)) [
    | inl e ↦ rw (perform, e) a
    | inr (b, e) ↦
        let k = pick h i live a.nodes b a.blocks e in
        let (ret, heap', moved, same) =
          nut_heap_root_free-Held h k.node a.heap (Picked-Held b (remove i live) k) in
        rw (perform, e, k.block.ptr)
          (record {
            nodes = k.rest;
            heap = heap';
            blocks = AllBlocks-frame h _ _ k.rest (λ q some_byte. ap (λ f. f q) same) k.blocks;
            whole = λ p. omega (arith, a.whole p, k.split p, moved p);
          })
  ]

  pub resize-Accounts :
      (i size : ℕ)
      → size + 16 < u32
      → let (h', live') = perform h live (resize i size) in Accounts region h' live'
  unfolding perform
  resize-Accounts i size small = elim (Option-cases (nth i live)) [
    | inl e ↦ rw (perform, e) a
    | inr (b, e) ↦
        let k = pick h i live a.nodes b a.blocks e in
        let outcome =
          nut_heap_root_realloc-Resized h k.node a.heap (Picked-Held b (remove i live) k) size
            small in
        rw (perform, e, k.block.ptr)
          (elim outcome [
            | inl (none_, ptr, heap', moved, same) ↦
                let test : (size == 0) ≡ true = ground (arith, none_) in
                rw test (record {
                  nodes = k.rest;
                  heap = heap';
                  blocks =
                      AllBlocks-frame h _ _ k.rest (λ q some_byte. ap (λ f. f q) same) k.blocks;
                  whole = λ p. omega (arith, a.whole p, k.split p, moved p);
                })
            | inr (inl (some_size, null, same)) ↦
                let test : (size == 0) ≡ false = ground (arith, some_size) in
                rw test (unchanged _ size _ (remove i live) null same)
            | inr (inr (m, some_size, ptr, room, kept)) ↦
                let test : (size == 0) ≡ false = ground (arith, some_size) in
                rw test (
                  joined _ size _ (remove i live) m k.rest
                    (record {
                      ptr = ptr;
                      room = room;
                      valid = kept.valid;
                      above = kept.above;
                      header = kept.header;
                    })
                    kept.heap k.blocks
                    (λ q some_byte.
                      kept.frame q (omega (arith, a.whole q, once q, k.split q, some_byte)))
                    (λ p. omega (arith, a.whole p, k.split p, kept.moved p)))
          ])
  ]
