-- ===== src/Remoteproc/Elf.antt =====
-- openamp/openamp/remoteproc/elf_loader.c: the loader of ELF images, and the loop of remoteproc_load over
-- its headers. Memory that holds a part of an image is a function from an offset to a byte.
pub mod Load
pub mod Segments
pub mod Masks
pub mod Next
pub mod Data
pub mod Headers
pub mod Answer
pub mod Loop
use v85x_openamp.Base.{
  ℕ, zero, suc, ◌+◌, ◌-◌, ◌*◌, ◌%◌, ◌^◌, Bool, true, false, not, ◌&&◌, ◌||◌, Option, none, some,
  List, [], ◌∷◌, if◌then◌else◌, ltb, leb, ◌==◌, bit_and, bit_or, ℤ, pos, negsuc,
}
use v85x_openamp.Virtqueue.State.{Run, ok, assert_failed, out_of_fuel, ◌>>=◌}
use v85x_openamp.Remoteproc.State.{rproc_einval}
use v85x_openamp.Remoteproc.Memory.{u32, metal_bad_phys}

abbrev pub Bytes : Type 0
Bytes = ℕ → ℕ

-- a number of 2 bytes, and the low 32 bits, those of a `size_t`, of a longer one
abbrev pub half : Bytes → ℕ → ℕ
half m o = m o % 256 + m (o + 1) % 256 * 256

abbrev pub word : Bytes → ℕ → ℕ
word m o = half m o + half m (o + 2) * 2 ^ 16

abbrev pub elf_state_wait_for_phdrs : ℕ
elf_state_wait_for_phdrs = 0x100

abbrev pub elf_state_wait_for_shdrs : ℕ
elf_state_wait_for_shdrs = 0x200

abbrev pub elf_state_wait_for_shstrtab : ℕ
elf_state_wait_for_shstrtab = 0x400

abbrev pub elf_state_hdrs_complete : ℕ
elf_state_hdrs_complete = 0x800

abbrev pub elf_state_mask : ℕ
elf_state_mask = 0xff00

abbrev pub ready_to_load : ℕ
ready_to_load = 0x10000

-- `struct elf32_info` or `struct elf64_info`, by the class in the header that it begins with
pub record ElfInfo : Type 0 where
  pub ehdr : Bytes
  pub load_state : ℕ
  pub phdrs : Option Bytes
  pub shdrs : Option Bytes
  pub shstrtab : Option Bytes

unfoldable pub elf_is_64 : Bytes → Bool
elf_is_64 m = m 4 == 2

unfoldable pub elf_ehdr_size : Bytes → ℕ
unfolding elf_is_64
elf_ehdr_size m = if elf_is_64 m then 64 else 52

unfoldable pub elf_phoff : Bytes → ℕ
unfolding elf_is_64
elf_phoff m = if elf_is_64 m then word m 32 else word m 28

unfoldable pub elf_shoff : Bytes → ℕ
unfolding elf_is_64
elf_shoff m = if elf_is_64 m then word m 40 else word m 32

unfoldable pub elf_phentsize : Bytes → ℕ
unfolding elf_is_64
elf_phentsize m = if elf_is_64 m then half m 54 else half m 42

unfoldable pub elf_phnum : Bytes → ℕ
unfolding elf_is_64
elf_phnum m = if elf_is_64 m then half m 56 else half m 44

unfoldable pub elf_shentsize : Bytes → ℕ
unfolding elf_is_64
elf_shentsize m = if elf_is_64 m then half m 58 else half m 46

unfoldable pub elf_shnum : Bytes → ℕ
unfolding elf_is_64
elf_shnum m = if elf_is_64 m then half m 60 else half m 48

unfoldable pub elf_shstrndx : Bytes → ℕ
unfolding elf_is_64
elf_shstrndx m = if elf_is_64 m then half m 62 else half m 50

-- the bytes of a memory from an offset on
abbrev pub from_ : Bytes → ℕ → Bytes
from_ m o = λ i. m (o + i)

unfoldable pub elf_get_section_from_index : ElfInfo → ℕ → Option Bytes
unfolding elf_shnum elf_is_64
elf_get_section_from_index info index = elim info.shdrs [
  | none ↦ none
  | some table ↦
      if leb (elf_shnum info.ehdr) index
      then none
      else some (from_ table (index * (if elf_is_64 info.ehdr then 64 else 40)))
]

-- the offset and the size of a section, of the nine fields that elf_parse_section can read
unfoldable pub section_place : ElfInfo → Bytes → ℕ × ℕ
unfolding elf_is_64
section_place info shdr =
    if elf_is_64 info.ehdr then (word shdr 24, word shdr 32) else (word shdr 16, word shdr 20)

unfoldable pub elf_identify : Bytes → ℕ → ℤ
elf_identify img len =
    if ltb len 4
    then rproc_einval
    else if (img 0 == 0x7f) && ((img 1 == 0x45) && ((img 2 == 0x4c) && (img 3 == 0x46)))
    then pos 0
    else rproc_einval

-- -RPROC_ENOMEM
abbrev pub rproc_enomem : ℤ
rproc_enomem = negsuc 0

-- What `elf_load_header` returns, with `*img_info`, `*noffset` and `*nlen` after it.
pub record Header : Type 0 where
  pub ret : ℤ
  pub info : Option ElfInfo
  pub noffset : ℕ
  pub nlen : ℕ

-- whether the part of `len` bytes from `offset` on lacks some of `size` bytes from `start` on
abbrev pub lacks : ℕ → ℕ → ℕ → ℕ → Bool
lacks offset len start size = ltb start offset || ltb ((offset + len) % u32) ((start + size) % u32)

-- `(*load_state & ~ELF_STATE_MASK) | state`
abbrev pub replace_state : ℕ → ℕ → ℕ
replace_state old state = bit_or (bit_and old (u32 - 1 - elf_state_mask)) state

-- `memory` tells whether there is memory of a size.
module _ (memory : ℕ → Bool) (img : Bytes) (offset len : ℕ) (last noffset nlen : ℕ) where
  -- a call that leaves `*noffset` and `*nlen`, one that asks for a part of the image, and one that is done
  abbrev pub ends : ℤ → ElfInfo → Header
  ends ret info = record { ret = ret; info = some info; noffset = noffset; nlen = nlen }

  abbrev pub asks : ElfInfo → ℕ → ℕ → Header
  asks info start size = record {
    ret = pos info.load_state;
    info = some info;
    noffset = start;
    nlen = size;
  }

  abbrev pub completes : ElfInfo → Header
  completes info =
      let state = replace_state info.load_state elf_state_hdrs_complete in
      record {
        ret = pos state;
        info = some (record info { load_state = state });
        noffset = noffset;
        nlen = 0;
      }

  -- the last part of `elf_load_header`
  unfoldable pub shstrtab_stage : ElfInfo → Header
  unfolding elf_shstrndx elf_get_section_from_index section_place
  shstrtab_stage info =
      if bit_and info.load_state elf_state_wait_for_shstrtab == 0
      then ends (pos last) info
      else elim (elf_get_section_from_index info (elf_shstrndx info.ehdr)) [
        | none ↦ ends rproc_einval info
        | some shdr ↦
            let (start, size) = section_place info shdr in
            if lacks offset len start size
            then asks info start size
            else if not (memory size)
            then ends rproc_enomem (record info { shstrtab = none })
            else completes (record info { shstrtab = some (from_ img (start - offset)) })
      ]

  unfoldable pub shdrs_stage : ElfInfo → Header
  unfolding elf_shoff elf_shnum elf_shentsize shstrtab_stage
  shdrs_stage info =
      let start = elf_shoff info.ehdr in
      let size = elf_shnum info.ehdr * elf_shentsize info.ehdr % u32 in
      if bit_and info.load_state elf_state_wait_for_shdrs == 0
      then shstrtab_stage info
      else if elf_shnum info.ehdr == 0
      then completes info
      else if lacks offset len start size
      then asks info start size
      else if not (memory size)
      then ends rproc_enomem (record info { shdrs = none })
      else shstrtab_stage (record info {
        shdrs = some (from_ img (start - offset));
        load_state = replace_state info.load_state elf_state_wait_for_shstrtab;
      })

  unfoldable pub phdrs_stage : ElfInfo → Header
  unfolding elf_phoff elf_phnum elf_phentsize shdrs_stage
  phdrs_stage info =
      let start = elf_phoff info.ehdr in
      let size = elf_phnum info.ehdr * elf_phentsize info.ehdr % u32 in
      if not (info.load_state == elf_state_wait_for_phdrs)
      then shdrs_stage info
      else if lacks offset len start size
      then asks info start size
      else if not (memory size)
      then ends rproc_enomem (record info { phdrs = none })
      else shdrs_stage (record info {
        phdrs = some (from_ img (start - offset));
        load_state = bit_or elf_state_wait_for_shdrs ready_to_load;
      })

abbrev pub blank_info : Bytes → ElfInfo
blank_info img = record {
  ehdr = img;
  load_state = elf_state_wait_for_phdrs;
  phdrs = none;
  shdrs = none;
  shstrtab = none;
}

-- `sizeof(struct elf32_info)` and `sizeof(struct elf64_info)`
unfoldable pub elf_info_size : Bytes → ℕ
unfolding elf_is_64
elf_info_size m = if elf_is_64 m then 80 else 68

-- A structure that is there already has the class of the header.
unfoldable pub elf_load_header :
    (ℕ → Bool) → Bytes → ℕ → ℕ → Option ElfInfo → ℕ → ℕ → ℕ → Run Header
unfolding elf_ehdr_size elf_info_size phdrs_stage
elf_load_header memory img offset len info last noffset nlen =
    let restarted = (elim info as (λ _. Option ElfInfo) [
      | none ↦ if memory (elf_info_size img) then some (blank_info img) else none
      | some i ↦ some (record i { ehdr = img; load_state = elf_state_wait_for_phdrs })
    ]) in
    if last == 0
    then (if ltb len (elf_ehdr_size img)
        then ok (record { ret = pos 0; info = info; noffset = 0; nlen = elf_ehdr_size img })
        else elim restarted [
          | none ↦ ok (record { ret = rproc_enomem; info = none; noffset = noffset; nlen = nlen })
          | some i ↦ ok (phdrs_stage memory img offset len elf_state_wait_for_phdrs noffset nlen i)
        ])
    else elim info [
      | none ↦ assert_failed
      | some i ↦
          if last == i.load_state
          then ok (phdrs_stage memory img offset len last noffset nlen i)
          else ok (ends memory img offset len last noffset nlen rproc_einval i)
    ]

-- `struct image_store_ops`, over the state of a store: a load returns a number and the data. `seek` is
-- SUPPORT_SEEK.
pub record ImageStore (S : Type 0) : Type 0 where
  pub load : S → ℕ → ℕ → ℤ × Bytes × S
  pub seek : Bool

-- `ret < (int)n`
abbrev pub is_short : ℤ → ℕ → Bool
is_short (pos r) n = ltb n (2 ^ 31) && ltb r n
is_short (negsuc r) n = ltb n (2 ^ 31) || ltb (u32 - n) (r + 1)

-- How the loop over the headers ends: at an error, or with the headers that it could get.
pub data HeadersEnd (S : Type 0) : Type 0 where
  failed : ℤ → Option ElfInfo → S → HeadersEnd S
  loaded : ℕ → Option ElfInfo → S → HeadersEnd S

module _ {S : Type 0} (memory : ℕ → Bool) (store : ImageStore S) where
  -- the loop over the headers of `remoteproc_load`
  unfoldable pub header_loop :
      ℕ → S → Bytes → ℕ → ℕ → Option ElfInfo → ℕ → ℕ → ℕ → Run (HeadersEnd S)
  unfolding elf_load_header
  header_loop zero s img offset len info last noffset nlen = out_of_fuel
  header_loop (suc fuel) s img offset len info last noffset nlen =
      elf_load_header memory img offset len info last noffset nlen >>= λ h. elim h.ret [
        | negsuc n ↦ ok (failed (negsuc n) h.info s)
        | pos state ↦
            let enough =
              not (bit_and state ready_to_load == 0)
              && ((h.nlen == 0) || (ltb ((offset + len) % u32) h.noffset && not store.seek)) in
            let (ret, img', s') = store.load s h.noffset h.nlen in
            elim enough [
              | true ↦ ok (loaded state h.info s)
              | false ↦ elim (is_short ret h.nlen) [
                | true ↦ ok (failed ret h.info s')
                | false ↦ header_loop fuel s' img' h.noffset h.nlen h.info state h.noffset h.nlen
              ]
            ]
      ]
