-- ===== src/Remoteproc/Table.antt =====
-- openamp/openamp/remoteproc/rsc_table_parser.c, with remoteproc_allocate_id of remoteproc.c. A table is
-- its header, its array of offsets, and what stands at an offset.
use v85x_openamp.Base.{
  ℕ, suc, ◌+◌, ◌*◌, ◌%◌, Bool, true, false, not, ◌&&◌, ◌||◌, Option, none, some, List, [], ◌∷◌,
  if◌then◌else◌, ltb, leb, ◌==◌, update, length, ℤ, pos, negsuc, is_zero,
}
use v85x_openamp.Virtqueue.State.{u32}
use v85x_openamp.Virtio.Rproc.{notify_id_any, einval}

-- The fields of a resource that its handler reads; `vrings` are the ids of the vrings of a
-- `struct fw_rsc_vdev`, `num_of_vrings` of them.
pub record Resource : Type 0 where
  pub rsc_type : ℕ
  pub pa : ℕ
  pub da : ℕ
  pub len : ℕ
  pub flags : ℕ
  pub reserved : ℕ
  pub notifyid : ℕ
  pub vrings : List ℕ

-- `struct resource_table`; `num` is the length of `offset`.
pub record ResourceTable : Type 0 where
  pub ver : ℕ
  pub reserved0 : ℕ
  pub reserved1 : ℕ
  pub offset : List ℕ
  pub at : ℕ → Resource

-- FW_RSC_U32_ADDR_ANY
abbrev pub addr_any : ℕ
addr_any = 0xffffffff

-- -RPROC_ERR_RSC_TAB_TRUNC, _VER, _RSVD, _NP and _NS
abbrev pub truncated : ℤ
truncated = negsuc 4

abbrev pub bad_version : ℤ
bad_version = negsuc 5

abbrev pub not_reserved : ℤ
not_reserved = negsuc 6

abbrev pub no_parameter : ℤ
no_parameter = negsuc 9

abbrev pub not_supported : ℤ
not_supported = negsuc 10

abbrev is_not_supported : ℤ → Bool
is_not_supported (pos n) = false
is_not_supported (negsuc n) = n == 10

-- what the parser calls: the bitmap of libmetal, and the operations of the remote processor `P`
pub record Platform (P : Type 0) : Type 0 where
  pub metal_bitmap_next_clear_bit : P → ℕ → ℕ → ℕ
  pub metal_bitmap_set_bit : P → ℕ → P
  pub metal_bitmap_clear_bit : P → ℕ → P
  pub remoteproc_mmap : P → ℕ → ℕ → ℕ → ℕ → Bool × P
  pub handle_rsc : Option (P → Resource → ℕ → ℤ × P)
  -- whether an address is outside the region of the table, where one is given
  pub outside : ℕ → Bool

module _ {P : Type 0} (ops : Platform P) where
  unfoldable pub remoteproc_allocate_id : P → ℕ → ℕ → ℕ × P
  remoteproc_allocate_id p start end_ =
      let from = if start == notify_id_any then 0 else start in
      let to = if end_ == notify_id_any then 32 else end_ in
      let id = ops.metal_bitmap_next_clear_bit p from to in
      if ltb from 32 && leb to 32
      then (if id == to then (notify_id_any, p) else (id, ops.metal_bitmap_set_bit p id))
      else (notify_id_any, p)

  -- the id that a resource asks for, or any
  unfoldable pub allocate_wanted : P → ℕ → ℕ × P
  unfolding remoteproc_allocate_id
  allocate_wanted p id =
      remoteproc_allocate_id p id (if id == notify_id_any then notify_id_any else (id + 1) % u32)

  unfoldable pub handle_carve_out_rsc : P → Resource → ℤ × P
  handle_carve_out_rsc p rsc =
      let (mapped, p') = ops.remoteproc_mmap p rsc.pa rsc.da rsc.len rsc.flags in
      if not (rsc.reserved == 0)
      then (not_reserved, p)
      else ((if mapped then pos 0 else einval), p')

  unfoldable pub handle_trace_rsc : P → Resource → ℤ × P
  handle_trace_rsc p rsc =
      if not (rsc.da == addr_any) && not (rsc.len == 0) then (pos 0, p) else (not_supported, p)

  -- gives the ids of vrings back, the last one first
  unfoldable pub clear_ids : P → List ℕ → P
  clear_ids p [] = p
  clear_ids p (id ∷ ids) = clear_ids (ops.metal_bitmap_clear_bit p id) ids

  -- The loop of `handle_vdev_rsc`; `done` are the ids allocated so far, the last one first. The result
  -- is false at `err`, with the vrings as they are then.
  unfoldable pub vring_loop : List ℕ → P → List ℕ → Bool × P × List ℕ
  unfolding allocate_wanted clear_ids
  vring_loop [] p done = (true, p, [])
  vring_loop (id ∷ ids) p done =
      let (got, p') = allocate_wanted p id in
      let (all, p'', rest) = vring_loop ids p' (got ∷ done) in
      if got == notify_id_any then (false, clear_ids p' done, id ∷ ids) else (all, p'', got ∷ rest)

  unfoldable pub handle_vdev_rsc : P → Resource → ℤ × P × Resource
  unfolding vring_loop
  handle_vdev_rsc p rsc =
      let (id, p1) = allocate_wanted p rsc.notifyid in
      let (all, p2, vrings) = vring_loop rsc.vrings p1 [] in
      let rsc' = record rsc { notifyid = id; vrings = vrings } in
      if id == notify_id_any
      then (no_parameter, p1, rsc)
      else if all
      then (pos 0, p2, rsc')
      else (no_parameter, ops.metal_bitmap_clear_bit p2 id, rsc')

  unfoldable pub handle_vendor_rsc : P → Resource → ℤ × P
  handle_vendor_rsc p rsc = elim ops.handle_rsc [
    | none ↦ (not_supported, p)
    | some handle ↦ handle p rsc rsc.len
  ]

  abbrev unchanged : Resource → ℤ × P → ℤ × P × Resource
  unchanged rsc (status, p) = (status, p, rsc)

  -- one resource; `status` is that of the one before it, which a type without a handler leaves
  unfoldable pub handle_one : ℤ → P → Resource → ℤ × P × Resource
  unfolding handle_carve_out_rsc handle_trace_rsc handle_vdev_rsc handle_vendor_rsc
  handle_one status p rsc =
      let t = rsc.rsc_type in
      if t == 0
      then unchanged rsc (handle_carve_out_rsc p rsc)
      else if t == 1
      then (not_supported, p, rsc)
      else if t == 2
      then unchanged rsc (handle_trace_rsc p rsc)
      else if t == 3
      then handle_vdev_rsc p rsc
      else if leb 128 t && leb t 512
      then unchanged rsc (handle_vendor_rsc p rsc)
      else (status, p, rsc)

  -- the loop of `handle_rsc_table` over the offsets
  unfoldable pub table_loop : List ℕ → ℤ → P → (ℕ → Resource) → ℤ × P × (ℕ → Resource)
  unfolding handle_one
  table_loop [] status p at = (status, p, at)
  table_loop (o ∷ os) status p at =
      let (status', p', rsc) = handle_one status p (at o) in
      let at' = update at o rsc in
      let rest = table_loop os (pos 0) p' at' in
      if ops.outside o
      then (truncated, p, at)
      else if is_not_supported status' || is_zero status'
      then rest
      else (status', p', at')

  unfoldable pub handle_rsc_table : P → ResourceTable → ℕ → ℤ × P × (ℕ → Resource)
  unfolding table_loop
  handle_rsc_table p table size =
      if ltb size 16
      then (truncated, p, table.at)
      else if not (table.ver == 1)
      then (bad_version, p, table.at)
      else if ltb size ((16 + length table.offset * 4) % u32)
      then (truncated, p, table.at)
      else if not (table.reserved0 == 0) || not (table.reserved1 == 0)
      then (not_reserved, p, table.at)
      else table_loop table.offset (pos 0) p table.at

-- the loop of `find_rsc`
unfoldable pub find_loop : List ℕ → (ℕ → Resource) → ℕ → ℕ → ℕ → ℕ
find_loop [] at rsc_type index rsc_index = 0
find_loop (o ∷ os) at rsc_type index rsc_index =
    let next = find_loop os at rsc_type index (suc rsc_index) in
    let same = find_loop os at rsc_type index rsc_index in
    if (at o).rsc_type == rsc_type then (if rsc_index == index then o else next) else same

-- For a table that is not NULL; 0 is where there is no such resource.
unfoldable pub find_rsc : ResourceTable → ℕ → ℕ → ℕ
unfolding find_loop
find_rsc table rsc_type index = find_loop table.offset table.at rsc_type index 0
