-- ===== src/Remoteproc/Elf/Headers.antt =====
-- What a call of elf_load_header asks for next.
use v85x_openamp.Base.{
  ℕ, suc, ◌-◌, ◌*◌, ◌%◌, ◌≡◌, refl, ap, ◌⊎◌, inl, inr, Bool, true, false, not, Option, none, some,
  arith, if◌then◌else◌, ◌==◌, bit_and, bit_or, pos, negsuc,
}
use v85x_openamp.Rpmsg.Valid.{either}
use v85x_openamp.Remoteproc.State.{rproc_einval}
use v85x_openamp.Remoteproc.Memory.{u32}
use v85x_openamp.Remoteproc.Elf.{
  Bytes, ElfInfo, Header, elf_phoff, elf_phnum, elf_phentsize, elf_shoff, elf_shnum, elf_shentsize,
  elf_shstrndx, elf_get_section_from_index, section_place, lacks, ends, asks, completes,
  replace_state, shstrtab_stage, shdrs_stage, phdrs_stage, ready_to_load, from_,
  elf_state_wait_for_shstrtab, elf_state_wait_for_shdrs, rproc_enomem,
}

-- the part of the image that the table of a header stands in
abbrev pub shdrs_size : ElfInfo → ℕ
shdrs_size info = elf_shnum info.ehdr * elf_shentsize info.ehdr % u32

abbrev pub phdrs_size : ElfInfo → ℕ
phdrs_size info = elf_phnum info.ehdr * elf_phentsize info.ehdr % u32

-- What a call has returned that leaves at most `k` parts of the image to be asked for.
pub data Asks : ℕ → Header → Type 0 where
  fails : {k : ℕ} {h : Header} (n : ℕ) → h.ret ≡ negsuc n → Asks k h
  done : {k : ℕ} {h : Header} → h.ret ≡ pos 0x10800 → h.nlen ≡ 0 → Asks k h
  shstrtab :
      {k : ℕ} {h : Header} (info : ElfInfo) (shdr : Bytes)
      → h ≡ record {
        ret = pos info.load_state;
        info = some info;
        noffset = (section_place info shdr).0;
        nlen = (section_place info shdr).1;
      }
      → info.load_state ≡ 0x10400
      → elf_get_section_from_index info (elf_shstrndx info.ehdr) ≡ some shdr
      → Asks (suc k) h
  shdrs :
      {k : ℕ} {h : Header} (info : ElfInfo)
      → h ≡ record {
        ret = pos info.load_state;
        info = some info;
        noffset = elf_shoff info.ehdr;
        nlen = shdrs_size info;
      }
      → info.load_state ≡ 0x10200
      → Asks (suc (suc k)) h
  phdrs :
      {k : ℕ} {h : Header} (info : ElfInfo)
      → h ≡ record {
        ret = pos info.load_state;
        info = some info;
        noffset = elf_phoff info.ehdr;
        nlen = phdrs_size info;
      }
      → info.load_state ≡ 0x100
      → Asks (suc (suc (suc k))) h

pub exact : (start size : ℕ) → lacks start size start size ≡ false
exact start size = ground arith

pub weaken : {k : ℕ} {h : Header} → Asks k h → Asks (suc k) h
weaken (fails n e) = fails n e
weaken (done e z) = done e z
weaken (shstrtab info shdr e at found) = shstrtab info shdr e at found
weaken (shdrs info e at) = shdrs info e at
weaken (phdrs info e at) = phdrs info e at

-- the call that asks for a part of the image
abbrev request : ElfInfo → ℕ → ℕ → Header
request info start size = record {
  ret = pos info.load_state;
  info = some info;
  noffset = start;
  nlen = size;
}

module _ (memory : ℕ → Bool) (img : Bytes) (offset len last noffset nlen : ℕ) where
  pub shstrtab_result :
      (info : ElfInfo)
      → info.load_state ≡ 0x10400
      → let h = shstrtab_stage memory img offset len last noffset nlen info in
        Asks 0 h
        ⊎ ((shdr : Bytes) × (elf_get_section_from_index info (elf_shstrndx info.ehdr) ≡ some shdr)
            × (lacks offset len (section_place info shdr).0 (section_place info shdr).1 ≡ true)
            × (h ≡ request info (section_place info shdr).0 (section_place info shdr).1))
  unfolding shstrtab_stage
  shstrtab_result info at =
      either P (bit_and info.load_state 0x400 == 0)
        (λ z. absurd (ground (arith, ap (λ s. bit_and s 0x400) at, z)))
        (λ _. go (elf_get_section_from_index info (elf_shstrndx info.ehdr)) refl)
    where
      P : Header → Type 0
      P h =
          Asks 0 h
          ⊎ ((shdr : Bytes) × (elf_get_section_from_index info (elf_shstrndx info.ehdr) ≡ some shdr)
              × (lacks offset len (section_place info shdr).0 (section_place info shdr).1 ≡ true)
              × (h ≡ request info (section_place info shdr).0 (section_place info shdr).1))

      go :
          (o : Option Bytes)
          → elf_get_section_from_index info (elf_shstrndx info.ehdr) ≡ o
          → P (elim o as (λ _. Header) [
            | none ↦ ends memory img offset len last noffset nlen rproc_einval info
            | some shdr ↦
                let (start, size) = section_place info shdr in
                if lacks offset len start size
                then asks memory img offset len last noffset nlen info start size
                else if not (memory size)
                then ends memory img offset len last noffset nlen rproc_enomem
                    (record info { shstrtab = none })
                else completes memory img offset len last noffset nlen
                    (record info { shstrtab = some (from_ img (start - offset)) })
          ])
      go none e = inl (fails 1 refl)
      go (some shdr) e =
          let (start, size) = section_place info shdr in
          either P (lacks offset len start size) (λ more. inr (shdr, e, more, refl))
            (λ _.
              either P (not (memory size)) (λ _. inl (fails 0 refl))
                (λ _. inl (done (ap (λ s. pos (replace_state s 0x800)) at) refl)))

  shstrtab-Asks :
      (info : ElfInfo)
      → info.load_state ≡ 0x10400
      → Asks 1 (shstrtab_stage memory img offset len last noffset nlen info)
  shstrtab-Asks info at = elim (shstrtab_result info at) [
    | inl a ↦ weaken a
    | inr (shdr, found, more, e) ↦ shstrtab info shdr e at found
  ]

  pub shdrs_result :
      (info : ElfInfo)
      → info.load_state ≡ 0x10200
      → let h = shdrs_stage memory img offset len last noffset nlen info in
        Asks 1 h
        ⊎ ((lacks offset len (elf_shoff info.ehdr) (shdrs_size info) ≡ true)
            × (h ≡ request info (elf_shoff info.ehdr) (shdrs_size info)))
  unfolding shdrs_stage
  shdrs_result info at =
      either P (bit_and info.load_state 0x200 == 0)
        (λ z. absurd (ground (arith, ap (λ s. bit_and s 0x200) at, z)))
        (λ _.
          either P (elf_shnum info.ehdr == 0)
            (λ _. inl (done (ap (λ s. pos (replace_state s 0x800)) at) refl))
            (λ _.
              either P (lacks offset len (elf_shoff info.ehdr) (shdrs_size info))
                (λ more. inr (more, refl))
                (λ _.
                  either P (not (memory (shdrs_size info))) (λ _. inl (fails 0 refl))
                    (λ _. inl (shstrtab-Asks (read info) (ap (λ s. replace_state s 0x400) at))))))
    where
      P : Header → Type 0
      P h =
          Asks 1 h
          ⊎ ((lacks offset len (elf_shoff info.ehdr) (shdrs_size info) ≡ true)
              × (h ≡ request info (elf_shoff info.ehdr) (shdrs_size info)))

      read : ElfInfo → ElfInfo
      read info = record info {
        shdrs = some (from_ img (elf_shoff info.ehdr - offset));
        load_state = replace_state info.load_state elf_state_wait_for_shstrtab;
      }

  shdrs-Asks :
      (info : ElfInfo)
      → info.load_state ≡ 0x10200
      → Asks 2 (shdrs_stage memory img offset len last noffset nlen info)
  shdrs-Asks info at = elim (shdrs_result info at) [
    | inl a ↦ weaken a
    | inr (more, e) ↦ shdrs info e at
  ]

  pub phdrs_result :
      (info : ElfInfo)
      → info.load_state ≡ 0x100
      → let h = phdrs_stage memory img offset len last noffset nlen info in
        Asks 2 h
        ⊎ ((lacks offset len (elf_phoff info.ehdr) (phdrs_size info) ≡ true)
            × (h ≡ request info (elf_phoff info.ehdr) (phdrs_size info)))
  unfolding phdrs_stage
  phdrs_result info at =
      either P (not (info.load_state == 0x100)) (λ z. absurd (ground (arith, at, z)))
        (λ _.
          either P (lacks offset len (elf_phoff info.ehdr) (phdrs_size info))
            (λ more. inr (more, refl))
            (λ _.
              either P (not (memory (phdrs_size info))) (λ _. inl (fails 0 refl))
                (λ _. inl (shdrs-Asks (read info) refl))))
    where
      P : Header → Type 0
      P h =
          Asks 2 h
          ⊎ ((lacks offset len (elf_phoff info.ehdr) (phdrs_size info) ≡ true)
              × (h ≡ request info (elf_phoff info.ehdr) (phdrs_size info)))

      read : ElfInfo → ElfInfo
      read info = record info {
        phdrs = some (from_ img (elf_phoff info.ehdr - offset));
        load_state = bit_or elf_state_wait_for_shdrs ready_to_load;
      }

  pub phdrs-Asks :
      (info : ElfInfo)
      → info.load_state ≡ 0x100
      → Asks 3 (phdrs_stage memory img offset len last noffset nlen info)
  phdrs-Asks info at = elim (phdrs_result info at) [
    | inl a ↦ weaken a
    | inr (more, e) ↦ phdrs info e at
  ]
