-- ===== src/Remoteproc/Elf/Answer.antt =====
-- What elf_load_header answers to the part of an image that it has asked for.
use v85x_openamp.Base.{
  ℕ, zero, suc, ◌≡◌, ◌≢◌, refl, sym, ◌∙◌, inl, inr, Bool, true, some, arith, bit_and, ap,
}
use mathlib.Core.Path.{subst}
use mathlib.Core.Option.{some-injective}
use v85x_openamp.Virtqueue.State.{ok}
use v85x_openamp.Remoteproc.Elf.{
  Bytes, ElfInfo, Header, elf_phoff, elf_shoff, elf_shstrndx, elf_get_section_from_index,
  section_place, lacks, shstrtab_stage, shdrs_stage, phdrs_stage, elf_load_header,
}
use v85x_openamp.Remoteproc.Elf.Headers.{
  Asks, shdrs_size, phdrs_size, exact, weaken, shstrtab_result, shdrs_result, phdrs_result,
}

module _ (memory : ℕ → Bool) (img : Bytes) (offset len noffset nlen : ℕ) where
  called :
      (info : ElfInfo) (last : ℕ)
      → last ≢ 0
      → info.load_state ≡ last
      → elf_load_header memory img offset len (some info) last noffset nlen
        ≡ ok (phdrs_stage memory img offset len last noffset nlen info)
  unfolding elf_load_header
  called info last ne at = ground (arith, ne, at)

  past_phdrs :
      (info : ElfInfo) (last : ℕ)
      → info.load_state ≢ 0x100
      → phdrs_stage memory img offset len last noffset nlen info
        ≡ shdrs_stage memory img offset len last noffset nlen info
  unfolding phdrs_stage
  past_phdrs info last ne = ground (arith, ne)

  past_shdrs :
      (info : ElfInfo) (last : ℕ)
      → bit_and info.load_state 0x200 ≡ 0
      → shdrs_stage memory img offset len last noffset nlen info
        ≡ shstrtab_stage memory img offset len last noffset nlen info
  unfolding shdrs_stage
  past_shdrs info last z = ground (arith, z)

pub at_least : (k : ℕ) {h : Header} → Asks 0 h → Asks k h
at_least zero a = a
at_least (suc k) a = weaken (at_least k a)

pub at_least_one : (k : ℕ) {h : Header} → Asks 1 h → Asks (suc k) h
at_least_one zero a = a
at_least_one (suc k) a = weaken (at_least_one k a)

pub at_least_two : (k : ℕ) {h : Header} → Asks 2 h → Asks (suc (suc k)) h
at_least_two zero a = a
at_least_two (suc k) a = weaken (at_least_two k a)

-- a call on the part that has been asked for
module _ (memory : ℕ → Bool) (img : Bytes) where
  abbrev pub Answers : ℕ → ElfInfo → ℕ → ℕ → Type 0
  Answers k info start size =
      (h : Header) × (elf_load_header memory img start size (some info) info.load_state start size
        ≡ ok h)
      × Asks k h

  pub shstrtab-answered :
      (info : ElfInfo) (shdr : Bytes)
      → info.load_state ≡ 0x10400
      → elf_get_section_from_index info (elf_shstrndx info.ehdr) ≡ some shdr
      → Answers 0 info (section_place info shdr).0 (section_place info shdr).1
  shstrtab-answered info shdr at found =
      let (start, size) = section_place info shdr in
      let past =
        past_phdrs memory img start size start size info info.load_state (ground (arith, at)) in
      let past' =
        past_shdrs memory img start size start size info info.load_state
          (ap (λ s. bit_and s 0x200) at) in
      (
        shstrtab_stage memory img start size info.load_state start size info,
        called memory img start size start size info info.load_state (ground (arith, at)) refl
            ∙ ap ok (past ∙ past'),
        elim (shstrtab_result memory img start size info.load_state start size info at) [
          | inl a ↦ a
          | inr (shdr', found', more, e) ↦
              let same : shdr' ≡ shdr = some-injective shdr' shdr (sym found' ∙ found) in
              let more' =
                subst
                  (λ x. lacks start size (section_place info x).0 (section_place info x).1 ≡ true)
                  same more in
              absurd (ground (arith, more', exact start size))
        ],
      )

  pub shdrs-answered :
      (info : ElfInfo)
      → info.load_state ≡ 0x10200
      → Answers 1 info (elf_shoff info.ehdr) (shdrs_size info)
  shdrs-answered info at =
      let start = elf_shoff info.ehdr in
      let size = shdrs_size info in
      let call =
        called memory img start size start size info info.load_state (ground (arith, at)) refl in
      let past =
        past_phdrs memory img start size start size info info.load_state (ground (arith, at)) in
      (
        shdrs_stage memory img start size info.load_state start size info,
        call ∙ ap ok past,
        elim (shdrs_result memory img start size info.load_state start size info at) [
          | inl a ↦ a
          | inr (more, e) ↦ absurd (ground (arith, more, exact start size))
        ],
      )

  pub phdrs-answered :
      (info : ElfInfo)
      → info.load_state ≡ 0x100
      → Answers 2 info (elf_phoff info.ehdr) (phdrs_size info)
  phdrs-answered info at =
      let start = elf_phoff info.ehdr in
      let size = phdrs_size info in
      (
        phdrs_stage memory img start size info.load_state start size info,
        called memory img start size start size info info.load_state (ground (arith, at)) refl,
        elim (phdrs_result memory img start size info.load_state start size info at) [
          | inl a ↦ a
          | inr (more, e) ↦ absurd (ground (arith, more, exact start size))
        ],
      )
