-- ===== src/Remoteproc/Elf/Load.antt =====
-- elf_loader.c: the segments of an image and its resource table, and elf_load.
use v85x_openamp.Base.{
  ℕ, zero, suc, ◌+◌, ◌-◌, ◌*◌, Bool, true, false, not, ◌&&◌, Option, none, some, List, [], ◌∷◌,
  if◌then◌else◌, leb, ◌==◌, bit_and, bit_or, ℤ, pos, negsuc,
}
use v85x_openamp.Virtqueue.State.{Run, ok, assert_failed, out_of_fuel, ◌>>=◌}
use v85x_openamp.Rpmsg.Send.{is_null}
use v85x_openamp.Remoteproc.State.{rproc_einval}
use v85x_openamp.Remoteproc.Memory.{u32, metal_bad_phys}
use v85x_openamp.Remoteproc.Elf.{
  Bytes, ElfInfo, elf_is_64, elf_phnum, elf_shnum, word, from_, section_place,
  elf_state_hdrs_complete, ready_to_load, elf_load_header,
}

-- PT_LOAD
abbrev pub pt_load : ℕ
pt_load = 1

-- what `elf_parse_segment` reads of a program header, in the order of its arguments
pub record Segment : Type 0 where
  pub p_type : ℕ
  pub p_offset : ℕ
  pub p_vaddr : ℕ
  pub p_paddr : ℕ
  pub p_filesz : ℕ
  pub p_memsz : ℕ

unfoldable pub elf_parse_segment : ElfInfo → Bytes → Segment
unfolding elf_is_64
elf_parse_segment info phdr =
    if elf_is_64 info.ehdr
    then record {
      p_type = word phdr 0;
      p_offset = word phdr 8;
      p_vaddr = word phdr 16;
      p_paddr = word phdr 24;
      p_filesz = word phdr 32;
      p_memsz = word phdr 40;
    }
    else record {
      p_type = word phdr 0;
      p_offset = word phdr 4;
      p_vaddr = word phdr 8;
      p_paddr = word phdr 12;
      p_filesz = word phdr 16;
      p_memsz = word phdr 20;
    }

unfoldable pub elf_get_segment_from_index : ElfInfo → ℕ → Option Bytes
unfolding elf_phnum elf_is_64
elf_get_segment_from_index info index = elim info.phdrs [
  | none ↦ none
  | some table ↦
      if leb (elf_phnum info.ehdr) index
      then none
      else some (from_ table (index * (if elf_is_64 info.ehdr then 56 else 32)))
]

-- The loop of `elf_next_load_segment` from the segment `nseg` on, with the segment read before: it
-- returns the segment that it stops at, the one read last, and the number of the next.
unfoldable pub elf_next_load_segment :
    ℕ → ElfInfo → ℕ → Option Segment → Run (Option Segment × Option Segment × ℕ)
unfolding elf_get_segment_from_index elf_parse_segment
elf_next_load_segment zero info nseg read = out_of_fuel
elf_next_load_segment (suc fuel) info nseg read = elim (elf_get_segment_from_index info nseg) [
  | none ↦ ok (none, read, nseg)
  | some phdr ↦
      let segment = elf_parse_segment info phdr in
      elim (segment.p_type == pt_load) [
        | true ↦ ok (some segment, some segment, nseg + 1)
        | false ↦ elf_next_load_segment fuel info (nseg + 1) (some segment)
      ]
]

-- ".resource_table"
abbrev pub resource_table_name : List ℕ
resource_table_name =
    46 ∷ 114 ∷ 101 ∷ 115 ∷ 111 ∷ 117 ∷ 114 ∷ 99 ∷ 101 ∷ 95 ∷ 116 ∷ 97 ∷ 98 ∷ 108 ∷ 101 ∷ []

-- `!strcmp(name, s)`, for a name without a NUL
unfoldable pub is_string : List ℕ → Bytes → Bool
is_string [] m = m 0 == 0
is_string (c ∷ cs) m = (m 0 == c) && is_string cs (from_ m 1)

-- the loop of `elf_get_section_from_name` from the section `i` on, with `n` to go
unfoldable pub section_loop : ElfInfo → List ℕ → Bytes → Bytes → ℕ → ℕ → Option Bytes
unfolding is_string elf_is_64
section_loop info name table names i zero = none
section_loop info name table names i (suc n) =
    let shdr = from_ table (i * (if elf_is_64 info.ehdr then 64 else 40)) in
    let rest = section_loop info name table names (suc i) n in
    if is_string name (from_ names (word shdr 0)) then some shdr else rest

unfoldable pub elf_get_section_from_name : ElfInfo → List ℕ → Option Bytes
unfolding section_loop elf_shnum
elf_get_section_from_name info name = elim info.shdrs [
  | none ↦ none
  | some table ↦ elim info.shstrtab [
    | none ↦ none
    | some names ↦ section_loop info name table names 0 (elf_shnum info.ehdr)
  ]
]

-- -RPROC_ERR_LOADER_STATE
abbrev pub rproc_err_loader_state : ℤ
rproc_err_loader_state = negsuc 11

-- The result, with the address, the offset and the size of the table; `none` is NULL.
unfoldable pub elf_locate_rsc_table : Option ElfInfo → ℕ → ℕ → ℕ → ℤ × ℕ × ℕ × ℕ
unfolding elf_get_section_from_name elf_is_64 section_place
elf_locate_rsc_table none da offset size = (rproc_einval, da, offset, size)
elf_locate_rsc_table (some info) da offset size =
    if bit_and info.load_state elf_state_hdrs_complete == 0
    then (rproc_err_loader_state, da, offset, size)
    else elim (elf_get_section_from_name info resource_table_name) [
      | none ↦ (pos 0, da, offset, 0)
      | some shdr ↦
          let (at, extent) = section_place info shdr in
          (pos 0, (if elf_is_64 info.ehdr then word shdr 16 else word shdr 12), at, extent)
    ]

unfoldable pub elf_get_entry : Option ElfInfo → ℕ
elf_get_entry none = metal_bad_phys
elf_get_entry (some info) = word info.ehdr 24

unfoldable pub elf_get_load_state : Option ElfInfo → ℤ
elf_get_load_state none = rproc_einval
elf_get_load_state (some info) = pos info.load_state

abbrev pub rproc_loader_mask : ℕ
rproc_loader_mask = 0x00ff0000

abbrev pub post_data_load : ℕ
post_data_load = 0x20000

abbrev pub load_complete : ℕ
load_complete = 0x40000

abbrev pub elf_next_segment_mask : ℕ
elf_next_segment_mask = 0xff

-- `(*load_state & ~RPROC_LOADER_MASK) | phase`
abbrev pub replace_phase : ℕ → ℕ → ℕ
replace_phase old phase = bit_or (bit_and old (u32 - 1 - rproc_loader_mask)) phase

-- What `elf_load` returns, with `*img_info`, `*da`, `*noffset`, `*nlen` and `*nmemsize` after it.
pub record Load : Type 0 where
  pub ret : ℤ
  pub info : Option ElfInfo
  pub da : ℕ
  pub noffset : ℕ
  pub nlen : ℕ
  pub nmemsize : ℕ

-- the state after a search for a segment that has stopped, or not, before the segment `nsegment`
abbrev pub next_state : ElfInfo → Bool → ℕ → ℕ
next_state info found nsegment =
    let phase =
      if nsegment == elf_phnum info.ehdr
      then replace_phase info.load_state (if found then post_data_load else load_complete)
      else info.load_state in
    bit_or (bit_and phase (u32 - 1 - elf_next_segment_mask))
      (bit_and nsegment elf_next_segment_mask)

-- the branch of RPROC_LOADER_READY_TO_LOAD; `elf_next_load_segment` leaves what it has read in `*da` and
-- `*noffset` also where it finds nothing
unfoldable pub load_segment : ElfInfo → ℕ → ℕ → ℕ → ℕ → Run Load
unfolding elf_next_load_segment elf_phnum
load_segment info da noffset nlen nmemsize =
    elf_next_load_segment (elf_phnum info.ehdr + 1) info
      (bit_and info.load_state elf_next_segment_mask) none
    >>= λ (stop, last, nsegment).
        let here = not (is_null stop) in
        let state = next_state info here nsegment in
        ok (record {
          ret = pos state;
          info = some (record info { load_state = state });
          da =
              if (nsegment == elf_phnum info.ehdr) && not here
              then metal_bad_phys
              else elim last [ none ↦ da | some s ↦ s.p_paddr ];
          noffset = elim last [ none ↦ noffset | some s ↦ s.p_offset ];
          nlen = elim stop [ none ↦ nlen | some s ↦ s.p_filesz ];
          nmemsize = elim stop [ none ↦ nmemsize | some s ↦ s.p_memsz ];
        })

-- the 32 bits of an `int`
abbrev pub int_bits : ℤ → ℕ
int_bits (pos n) = n
int_bits (negsuc n) = u32 - 1 - n

-- the branch of RPROC_LOADER_POST_DATA_LOAD
unfoldable pub post_load : (ℕ → Bool) → Bytes → ℕ → ℕ → ElfInfo → ℕ → ℕ → ℕ → ℕ → ℕ → Run Load
unfolding elf_load_header
post_load memory img offset len info last da noffset nlen nmemsize =
    elim (bit_and info.load_state elf_state_hdrs_complete == 0) [
      | false ↦
          let state = replace_phase info.load_state load_complete in
          ok (record {
            ret = pos state;
            info = some (record info { load_state = state });
            da = da;
            noffset = noffset;
            nlen = 0;
            nmemsize = nmemsize;
          })
      | true ↦ elf_load_header memory img offset len (some info) last noffset nlen >>= λ h.
          elim h.info [
            | none ↦ assert_failed
            | some i ↦
                let complete = not (bit_and (int_bits h.ret) elf_state_hdrs_complete == 0) in
                let state =
                  if complete then replace_phase i.load_state load_complete else i.load_state in
                ok (elim h.ret [
                  | negsuc n ↦ record {
                    ret = negsuc n;
                    info = some i;
                    da = da;
                    noffset = h.noffset;
                    nlen = h.nlen;
                    nmemsize = nmemsize;
                  }
                  | pos r ↦ record {
                    ret = pos state;
                    info = some (record i { load_state = state });
                    da = metal_bad_phys;
                    noffset = h.noffset;
                    nlen = if complete then 0 else h.nlen;
                    nmemsize = nmemsize;
                  }
                ])
          ]
    ]

-- from the second assertion on
unfoldable pub load_phase :
    (ℕ → Bool) → Bytes → ℕ → ℕ → Option ElfInfo → ℕ → ℕ → ℕ → ℕ → ℕ → Run Load
unfolding load_segment post_load
load_phase memory img offset len none last da noffset nlen nmemsize = assert_failed
load_phase memory img offset len (some info) last da noffset nlen nmemsize =
    elim (bit_and info.load_state ready_to_load == 0) [
      | false ↦ load_segment info da noffset nlen nmemsize
      | true ↦ elim (bit_and info.load_state post_data_load == 0) [
        | false ↦ post_load memory img offset len info last da noffset nlen nmemsize
        | true ↦ ok (record {
          ret = pos info.load_state;
          info = some info;
          da = da;
          noffset = noffset;
          nlen = nlen;
          nmemsize = nmemsize;
        })
      ]
    ]

-- The padding is 0.
unfoldable pub elf_load : (ℕ → Bool) → Bytes → ℕ → ℕ → Option ElfInfo → ℕ → ℕ → ℕ → ℕ → ℕ → Run Load
unfolding elf_load_header load_phase
elf_load memory img offset len info last da noffset nlen nmemsize =
    elim (bit_and last rproc_loader_mask == 0) [
      | false ↦ load_phase memory img offset len info last da noffset nlen nmemsize
      | true ↦ elf_load_header memory img offset len info last noffset nlen >>= λ h.
          elim (bit_and (int_bits h.ret) rproc_loader_mask == 0) [
            | true ↦ ok (record {
              ret = h.ret;
              info = h.info;
              da = metal_bad_phys;
              noffset = h.noffset;
              nlen = h.nlen;
              nmemsize = nmemsize;
            })
            | false ↦
                load_phase memory img offset len h.info (int_bits h.ret) da h.noffset h.nlen
                  nmemsize
          ]
    ]
