-- ===== src/Heap.antt =====
-- utils/nutheap.c, the free-list allocator, as the firmware builds it: without NUTDEBUG_HEAP and
-- without NUTMEM_GUARD, so that ValidateUserArea accepts every block and NutHeapCheck does nothing.
-- `size_t` and pointers are words of 32 bits; 0 is NULL.
pub mod Realloc
pub mod Inv
pub mod Walk
pub mod Alloc
pub mod Free
pub mod RoundTrip
pub mod Grow
pub mod Resize
pub mod Canonical
pub mod History
pub mod Accounts
pub mod Region
pub mod Aligned
pub mod Available
mod Tests
use v85x_openamp.Base.Window.{distance}
use v85x_openamp.Base.{
  ℕ, zero, suc, ◌+◌, ◌-◌, ◌*◌, ◌/◌, ◌%◌, Bool, true, false, ◌&&◌, Option, none, some, List, [], ◌∷◌,
  if◌then◌else◌, ltb, leb, ◌==◌, update, ℤ, pos, negsuc,
}

abbrev pub u32 : ℕ
u32 = 4294967296

abbrev pub add32 : ℕ → ℕ → ℕ
add32 a b = (a + b) % u32

abbrev pub sub32 : ℕ → ℕ → ℕ
sub32 = distance u32

-- NUT_HEAP_OVERHEAD
abbrev pub overhead : ℕ
overhead = 4

-- `sizeof(HEAPNODE)`, which is also NUTMEM_HEAPNODE_MIN
abbrev pub node_size : ℕ
node_size = 8

-- A node of the free list: its address and its `hn_size`. The links `hn_next` are the list.
pub record HeapNode : Type 0 where
  pub addr : ℕ
  pub hn_size : ℕ

-- The free list from `*root` on, and the word `hn_size` of the blocks that are not in it, by the
-- address of their node.
pub record Heap : Type 0 where
  pub root : List HeapNode
  pub hn_size : ℕ → ℕ

-- NUTMEM_BOTTOM_ALIGN and NUTMEM_TOP_ALIGN, for NUTMEM_ALIGNMENT 4
abbrev pub bottom_align : ℕ → ℕ
bottom_align s = s / 4 * 4

abbrev pub top_align : ℕ → ℕ
top_align s = bottom_align (add32 s 3)

-- the size of the node for `size` bytes
unfoldable pub node_need : ℕ → ℕ
node_need size =
    let need = add32 size overhead in top_align (if ltb need node_size then node_size else need)

-- A node that fits, with its place in the list (`fpp`) and the nodes behind it.
pub record Fit : Type 0 where
  pub fpp : ℕ
  pub node : HeapNode
  pub hn_next : List HeapNode

-- `fit == NULL || fit->hn_size > node->hn_size`
abbrev pub better : Option Fit → HeapNode → Bool
better none node = true
better (some fit) node = ltb node.hn_size fit.node.hn_size

-- the walk for the best fit, from the node at place `npp` on
unfoldable pub find_fit : ℕ → List HeapNode → ℕ → Option Fit → Option Fit
find_fit need [] npp fit = fit
find_fit need (node ∷ rest) npp fit =
    let found = some (record { fpp = npp; node = node; hn_next = rest }) in
    elim (leb need node.hn_size && better fit node) [
      | true ↦ elim (node.hn_size == need) [
        | true ↦ found
        | false ↦ find_fit need rest (suc npp) found
      ]
      | false ↦ find_fit need rest (suc npp) fit
    ]

-- `*fpp = nodes`
unfoldable pub set_link : ℕ → List HeapNode → List HeapNode → List HeapNode
set_link zero nodes xs = nodes
set_link (suc i) nodes [] = nodes
set_link (suc i) nodes (x ∷ xs) = x ∷ set_link i nodes xs

-- The user region of a node.
abbrev pub prepare_user_area : ℕ → ℕ
prepare_user_area node = add32 node overhead

unfoldable pub take_fit : Heap → ℕ → Fit → Heap
unfolding set_link
take_fit h need fit =
    if leb node_size (fit.node.hn_size - need)
    then record {
      root =
          set_link fit.fpp
            (record { addr = add32 fit.node.addr need; hn_size = fit.node.hn_size - need }
              ∷ fit.hn_next)
            h.root;
      hn_size = update h.hn_size fit.node.addr need;
    }
    else record {
      root = set_link fit.fpp fit.hn_next h.root;
      hn_size = update h.hn_size fit.node.addr fit.node.hn_size;
    }

unfoldable pub nut_heap_root_alloc : Heap → ℕ → ℕ × Heap
unfolding node_need find_fit take_fit
nut_heap_root_alloc h size = elim (find_fit (node_need size) h.root 0 none) [
  | none ↦ (0, h)
  | some fit ↦ (prepare_user_area fit.node.addr, take_fit h (node_need size) fit)
]

-- A node that has grown to the end of a freed block, before `hn_next`. The region of a heap ends below
-- the top of the address space, so that no node ends at NULL.
abbrev pub merge_next : HeapNode → List HeapNode → List HeapNode
merge_next node [] = node ∷ []
merge_next node (next ∷ rest) =
    if add32 node.addr node.hn_size == next.addr
    then record node { hn_size = add32 node.hn_size next.hn_size } ∷ rest
    else node ∷ next ∷ rest

abbrev pub link_before : HeapNode → List HeapNode → Option (List HeapNode) → Option (List HeapNode)
link_before node rest none = none
link_before node rest (some xs) = some (node ∷ xs)

-- The walk of `NutHeapRootFree`; `none` is the return of -1.
unfoldable pub link_in : HeapNode → List HeapNode → Option (List HeapNode)
link_in fnode [] = some (fnode ∷ [])
link_in fnode (node ∷ rest) =
    if add32 node.addr node.hn_size == fnode.addr
    then some (merge_next (record node { hn_size = add32 node.hn_size fnode.hn_size }) rest)
    else if ltb fnode.addr node.addr
    then some (
        if add32 fnode.addr fnode.hn_size == node.addr
        then record fnode { hn_size = add32 fnode.hn_size node.hn_size } ∷ rest
        else fnode ∷ node ∷ rest)
    else if ltb fnode.addr (add32 node.addr node.hn_size)
    then none
    else link_before node rest (link_in fnode rest)

-- the node of a block
abbrev pub node_of : ℕ → ℕ
node_of block = sub32 block overhead

-- the list that `*root` starts, where the block has been linked in
abbrev pub relinked : Heap → Option (List HeapNode) → ℤ × Heap
relinked h none = (negsuc 0, h)
relinked h (some root) = (pos 0, record h { root = root })

unfoldable pub nut_heap_root_free : Heap → ℕ → ℤ × Heap
unfolding link_in
nut_heap_root_free h block =
    let fnode = node_of block in
    if block == 0
    then (negsuc 2, h)
    else relinked h (link_in (record { addr = fnode; hn_size = h.hn_size fnode }) h.root)

unfoldable pub nut_heap_root_add : Heap → ℕ → ℕ → Heap
unfolding nut_heap_root_free
nut_heap_root_add h addr size =
    let node = top_align addr in
    let sized = record h {
      hn_size = update h.hn_size node (bottom_align (sub32 size (sub32 node addr)));
    } in
    (nut_heap_root_free sized (prepare_user_area node)).1

unfoldable pub available_from : ℕ → List HeapNode → ℕ
available_from rc [] = rc
available_from rc (node ∷ rest) = available_from (add32 rc (sub32 node.hn_size overhead)) rest

unfoldable pub nut_heap_root_available : Heap → ℕ
unfolding available_from
nut_heap_root_available h = available_from 0 h.root

unfoldable pub largest_from : ℕ → List HeapNode → ℕ
largest_from rc [] = rc
largest_from rc (node ∷ rest) = largest_from (if ltb rc node.hn_size then node.hn_size else rc) rest

unfoldable pub nut_heap_root_region_available : Heap → ℕ
unfolding largest_from
nut_heap_root_region_available h = sub32 (largest_from 0 h.root) overhead
