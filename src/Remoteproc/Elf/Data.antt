-- ===== src/Remoteproc/Elf/Data.antt =====
-- remoteproc.c: the loop of remoteproc_load over the data of an ELF image.
pub mod Ends
use v85x_openamp.Base.{
  ℕ, zero, suc, ◌+◌, ◌-◌, ◌%◌, ◌^◌, Bool, true, false, not, ◌&&◌, ◌||◌, Option, none, some, ltb,
  ◌==◌, bit_and, ℤ, pos, negsuc, if◌then◌else◌,
}
use v85x_openamp.Virtqueue.State.{Run, ok, out_of_fuel, ◌>>=◌}
use v85x_openamp.Remoteproc.State.{Remoteproc, RemoteprocOps, rproc_einval}
use v85x_openamp.Remoteproc.Memory.{u32, metal_bad_phys, MetalIo, remoteproc_mmap}
use v85x_openamp.Remoteproc.Elf.{Bytes, ElfInfo, is_short}
use v85x_openamp.Remoteproc.Elf.Load.{Load, post_data_load, elf_load}

-- What the loop uses of `struct image_store_ops` and of metal_io_block_set, over the state of a store and
-- of the memory that it loads to. A load to anywhere has no physical address and region.
pub record DataStore (S : Type 0) : Type 0 where
  pub load : S → ℕ → ℕ → Option (ℕ × ℕ) → ℤ × Bytes × S
  pub block_set : S → ℕ → Option ℕ → ℕ → ℕ → S

-- `ret == (int)n`
abbrev pub is_exact : ℤ → ℕ → Bool
is_exact (pos r) n = ltb n (2 ^ 31) && (r == n)
is_exact (negsuc r) n = not (ltb n (2 ^ 31)) && (r + 1 + n == u32)

-- the variables of the loop, with the store and the processor: `io`, `img_data`, `offset` and `len`
pub record DataState (S P : Type 0) : Type 0 where
  pub store : S
  pub rproc : Remoteproc P
  pub io : Option ℕ
  pub img : Bytes
  pub offset : ℕ
  pub len : ℕ

-- How the loop ends: at an error, or behind the data.
pub data DataEnd (S P : Type 0) : Type 0 where
  data_failed : ℤ → Option ElfInfo → DataState S P → DataEnd S P
  data_loaded : Option ElfInfo → DataState S P → DataEnd S P

-- `null` is what is read through NULL.
module _ {S P : Type 0} (memory : ℕ → Bool) (metal : MetalIo) (ops : RemoteprocOps P)
    (store : DataStore S) (null : Bytes) where
  -- the data of a segment to the physical address `pa` in the region `io`, then padding, and whether it
  -- could be loaded
  unfoldable pub write_segment : DataState S P → Load → ℕ → ℕ → Bool × DataState S P
  write_segment a r pa io =
      let (ret, img, s) = store.load a.store r.noffset r.nlen (some (pa, io)) in
      let b = if ltb 0 r.nlen then record a { store = s; img = img } else a in
      if ltb 0 r.nlen && not (is_exact ret r.nlen)
      then (false, b)
      else if ltb r.nlen r.nmemsize
      then (
        true,
        record b {
          store =
              store.block_set b.store io (metal.phys_to_offset io ((pa + r.nlen) % u32)) 0
                (r.nmemsize - r.nlen);
        },
      )
      else (true, b)

  -- the branch for data to be loaded to target memory
  unfoldable pub place_segment : DataState S P → Load → Bool × DataState S P
  unfolding remoteproc_mmap write_segment
  place_segment a r =
      let m = remoteproc_mmap metal ops a.rproc (some metal_bad_phys) (some r.da) r.nmemsize 0 in
      let io = (elim m.io as (λ _. Option ℕ) [ none ↦ a.io | some i ↦ some i ]) in
      let b = record a { rproc = m.rproc; io = io; img = null } in
      elim m.pa [
        | none ↦ (false, b)
        | some pa ↦ elim io [
          | none ↦ (false, b)
          | some i ↦ if pa == metal_bad_phys then (false, b) else write_segment b r pa i
        ]
      ]

  -- a round of the loop after `load_data` has returned `r` and the state `state`, with the next round
  unfoldable pub data_round :
      (DataState S P → Option ElfInfo → ℕ → Run (DataEnd S P))
      → Load
      → ℕ
      → DataState S P
      → Run (DataEnd S P)
  unfolding place_segment
  data_round next r state a = elim (r.da == metal_bad_phys) [
    | false ↦
        let (fine, b) = place_segment a r in
        elim fine [ true ↦ next b r.info state | false ↦ ok (data_failed rproc_einval r.info b) ]
    | true ↦ elim (r.nlen == 0) [
      | true ↦ ok (data_loaded r.info a)
      | false ↦
          let (ret, img, s) = store.load a.store r.noffset r.nlen none in
          let b = record a { store = s; img = img } in
          elim (is_short ret r.nlen) [
            | false ↦ next (record b { offset = r.noffset; len = r.nlen }) r.info state
            | true ↦
                if bit_and state post_data_load == 0
                then ok (data_failed ret r.info b)
                else ok (data_loaded r.info b)
          ]
    ]
  ]

  unfoldable pub data_loop : ℕ → DataState S P → Option ElfInfo → ℕ → Run (DataEnd S P)
  unfolding elf_load data_round
  data_loop zero a info last = out_of_fuel
  data_loop (suc fuel) a info last =
      elf_load memory a.img a.offset a.len info last metal_bad_phys 0 0 0 >>= λ r. elim r.ret [
        | negsuc n ↦ ok (data_failed (negsuc n) r.info a)
        | pos state ↦ data_round (data_loop fuel) r state a
      ]
