-- ===== src/Remoteproc/Elf/Next.antt =====
-- One call of elf_load for the data of an image.
use v85x_openamp.Base.{
  ℕ, ◌+◌, ◌-◌, ◌≤◌, ◌<◌, ◌≡◌, refl, sym, ◌∙◌, ap, ◌⊎◌, inl, inr, Bool, true, false, not, ◌&&◌,
  Option, none, some, arith, Bool-cases, ◌==◌, if◌then◌else◌, bit_and, pos,
}
use v85x_openamp.Virtqueue.State.{ok}
use v85x_openamp.Rpmsg.Send.{is_null}
use v85x_openamp.Remoteproc.Memory.{metal_bad_phys}
use v85x_openamp.Remoteproc.Elf.{Bytes, ElfInfo, elf_phnum, ready_to_load}
use v85x_openamp.Remoteproc.Elf.Load.{
  Segment, elf_parse_segment, elf_get_segment_from_index, elf_next_load_segment, Load, next_state,
  load_segment, load_phase, elf_load, rproc_loader_mask, elf_next_segment_mask,
}
use v85x_openamp.Remoteproc.Elf.Masks.{
  Stage, stage_bits, at_stage, masks_lem, next_state_mid, next_state_post, next_state_complete,
}
use v85x_openamp.Remoteproc.Elf.Segments.{
  parsed, loadable, segment_at, is_load, header-cases, inside, elf_next_load_segment-First,
}

-- What a call returns at the segment `m`: the data of the first segment from `m` on that is to be loaded,
-- with the state behind it, or the end, with `nlen` left as it is.
abbrev pub Delivers : Stage → ElfInfo → ℕ → ℕ → Load → Type 0
Delivers g info m nlen r =
    ((r.ret ≡ pos ((0x40000 + stage_bits g) + elf_phnum info.ehdr))
      × (r.info
          ≡ some (record info { load_state = (0x40000 + stage_bits g) + elf_phnum info.ehdr }))
      × (r.da ≡ metal_bad_phys)
      × (r.nlen ≡ nlen)
      × ((j : ℕ) → (j < m) ⊎ (is_load info j ≡ false)))
    ⊎ ((k : ℕ) × (s : Segment) × (m < k)
        × (k ≤ elf_phnum info.ehdr)
        × (segment_at info (k - 1) ≡ some s)
        × (is_load info (k - 1) ≡ true)
        × ((j : ℕ) → (j < m) ⊎ ((k ≤ j + 1) ⊎ (is_load info j ≡ false)))
        × (r.ret
            ≡ pos (if k == elf_phnum info.ehdr then (0x20000 + stage_bits g) + k else at_stage g k))
        × (r.info
            ≡ some (record info {
              load_state =
                  if k == elf_phnum info.ehdr then (0x20000 + stage_bits g) + k else at_stage g k;
            }))
        × (r.da ≡ s.p_paddr)
        × (r.noffset ≡ s.p_offset)
        × (r.nlen ≡ s.p_filesz)
        × (r.nmemsize ≡ s.p_memsz))

is_load-some :
    (info : ElfInfo) (j : ℕ)
    → is_load info j ≡ true
    → (s : Segment) × (segment_at info j ≡ some s) × (j < elf_phnum info.ehdr)
is_load-some info j e = elim (header-cases info j) [
  | inl absent ↦ absurd (ground (arith, ap (λ o. loadable (parsed info o)) absent, e))
  | inr (phdr, there) ↦
      (elf_parse_segment info phdr, ap (parsed info) there, inside info j phdr there)
]

-- a field of the segment read, or 0
abbrev of_segment : (Segment → ℕ) → Option Segment → ℕ
of_segment f none = 0
of_segment f (some s) = f s

and_false : (b : Bool) → (b && false) ≡ false
and_false true = refl
and_false false = refl

phase :
    (memory : ℕ → Bool) (img : Bytes) (offset len : ℕ) (info : ElfInfo)
    (last da noffset nlen nmemsize : ℕ)
    → bit_and last rproc_loader_mask ≡ ready_to_load
    → bit_and info.load_state ready_to_load ≡ ready_to_load
    → elf_load memory img offset len (some info) last da noffset nlen nmemsize
      ≡ load_segment info da noffset nlen nmemsize
unfolding elf_load load_phase
phase memory img offset len info last da noffset nlen nmemsize at here =
    rw (elf_load, at, load_phase, here) refl

-- what load_segment returns after a search that ended with `stop`, `last` and `k`
abbrev loaded : ElfInfo → ℕ → ℕ → ℕ → ℕ → Option Segment → Option Segment → ℕ → Load
loaded info da noffset nlen nmemsize stop last k =
    let here = not (is_null stop) in
    let state = next_state info here k in
    record {
      ret = pos state;
      info = some (record info { load_state = state });
      da =
          if (k == elf_phnum info.ehdr) && not here
          then metal_bad_phys
          else elim last [ none ↦ da | some s ↦ s.p_paddr ];
      noffset = elim last [ none ↦ noffset | some s ↦ s.p_offset ];
      nlen = elim stop [ none ↦ nlen | some s ↦ s.p_filesz ];
      nmemsize = elim stop [ none ↦ nmemsize | some s ↦ s.p_memsz ];
    }

load_segment-loaded :
    (info : ElfInfo) (da noffset nlen nmemsize : ℕ) (stop last : Option Segment) (k : ℕ)
    → elf_next_load_segment
        (elf_phnum info.ehdr + 1)
        info
        (bit_and info.load_state elf_next_segment_mask)
        none
      ≡ ok (stop, last, k)
    → load_segment info da noffset nlen nmemsize
      ≡ ok (loaded info da noffset nlen nmemsize stop last k)
unfolding load_segment
load_segment-loaded info da noffset nlen nmemsize stop last k e = rw (load_segment, e) refl

Delivers-end :
    (g : Stage) (info : ElfInfo) (m da noffset nlen nmemsize : ℕ) (stop last : Option Segment)
    (k : ℕ)
    → info.load_state ≡ at_stage g m
    → m < 256
    → elf_phnum info.ehdr < 256
    → stop ≡ none
    → k ≡ elf_phnum info.ehdr
    → ((j : ℕ) → (j < m) ⊎ (is_load info j ≡ false))
    → Delivers g info m nlen (loaded info da noffset nlen nmemsize stop last k)
Delivers-end g info m da noffset nlen nmemsize (some s) last k at low few e same others =
    absurd (ground (arith, e))
Delivers-end g info m da noffset nlen nmemsize none last k at low few e same others =
    let here : (k == elf_phnum info.ehdr) ≡ true = ground (arith, same) in
    let state : next_state info false k ≡ (0x40000 + stage_bits g) + elf_phnum info.ehdr =
      next_state_complete g info m k at low (omega (arith, same, few)) here
      ∙ ap (λ n. (0x40000 + stage_bits g) + n) same in
    inl (
      ap pos state,
      ap (λ n. some (record info { load_state = n })) state,
      rw here refl,
      refl,
      others,
    )

next_state_found :
    (g : Stage) (info : ElfInfo) (m k : ℕ)
    → info.load_state ≡ at_stage g m
    → m < k
    → k ≤ elf_phnum info.ehdr
    → elf_phnum info.ehdr < 256
    → next_state info true k
      ≡ (if k == elf_phnum info.ehdr then (0x20000 + stage_bits g) + k else at_stage g k)
next_state_found g info m k at lt le few =
    let low : m < 256 = omega (arith, lt, le, few) in
    let low' : k < 256 = omega (arith, le, few) in
    elim (Bool-cases (k == elf_phnum info.ehdr)) [
      | inl b ↦
          next_state_post g info m k at low low' b
          ∙ sym (ap (λ c. if c then (0x20000 + stage_bits g) + k else at_stage g k) b)
      | inr b ↦
          next_state_mid g info true m k at low low' b
          ∙ sym (ap (λ c. if c then (0x20000 + stage_bits g) + k else at_stage g k) b)
    ]

Delivers-found :
    (g : Stage) (info : ElfInfo) (m da noffset nlen nmemsize : ℕ) (stop last : Option Segment)
    (k : ℕ) (s : Segment)
    → info.load_state ≡ at_stage g m
    → m < k
    → k ≤ elf_phnum info.ehdr
    → elf_phnum info.ehdr < 256
    → stop ≡ some s
    → last ≡ some s
    → segment_at info (k - 1) ≡ some s
    → is_load info (k - 1) ≡ true
    → ((j : ℕ) → (j < m) ⊎ ((k ≤ j + 1) ⊎ (is_load info j ≡ false)))
    → Delivers g info m nlen (loaded info da noffset nlen nmemsize stop last k)
Delivers-found g info m da noffset nlen nmemsize none last k s at lt le few e e' there yes_ others =
    absurd (ground (arith, e))
Delivers-found g info m da noffset nlen nmemsize (some t) none k s at lt le few e e' there yes_
      others =
    absurd (ground (arith, e'))
Delivers-found g info m da noffset nlen nmemsize (some t) (some u) k s at lt le few e e' there yes_
      others =
    let state = next_state_found g info m k at lt le few in
    inr (
      k,
      s,
      lt,
      le,
      there,
      yes_,
      others,
      ap pos state,
      ap (λ n. some (record info { load_state = n })) state,
      ap (λ c. if c then metal_bad_phys else u.p_paddr) (and_false (k == elf_phnum info.ehdr))
          ∙ ap (of_segment (λ x. x.p_paddr)) e',
      ap (of_segment (λ x. x.p_offset)) e',
      ap (of_segment (λ x. x.p_filesz)) e,
      ap (of_segment (λ x. x.p_memsz)) e,
    )

end-place :
    (info : ElfInfo) (table : Bytes) (m k : ℕ)
    → info.phdrs ≡ some table
    → m ≤ elf_phnum info.ehdr
    → elf_get_segment_from_index info k ≡ none
    → (k ≡ m) ⊎ (k ≤ elf_phnum info.ehdr)
    → k ≡ elf_phnum info.ehdr
unfolding elf_get_segment_from_index
end-place info table m k has inside_ absent where_ = ground (arith, has, inside_, absent, where_)

-- While the data of an image is loaded whose program headers are there, at any stage of its section
-- headers, elf_load at the segment `m`, at most their number, returns the address, the place in the image
-- and the two sizes of the first segment from `m` on that is to be loaded, skips none, and goes to the
-- state behind it, at the same stage; where none is left it says so. This is for images with at most 255
-- segments.
pub elf_load-Delivers :
    (g : Stage) (memory : ℕ → Bool) (img : Bytes) (offset len : ℕ) (info : ElfInfo) (table : Bytes)
    (m da noffset nlen nmemsize : ℕ)
    → info.phdrs ≡ some table
    → info.load_state ≡ at_stage g m
    → m ≤ elf_phnum info.ehdr
    → elf_phnum info.ehdr < 256
    → (r : Load) × (elf_load memory img offset len
          (some info)
          (at_stage g m)
          da
          noffset
          nlen
          nmemsize
        ≡ ok r)
      × Delivers g info m nlen r
elf_load-Delivers g memory img offset len info table m da noffset nlen nmemsize has at inside_ few =
    let (stop, last, k, run_, first) =
      elf_next_load_segment-First (elf_phnum info.ehdr + 1) info m none (omega arith)
        (omega (arith, inside_)) in
    let low : m < 256 = omega (arith, inside_, few) in
    let a = masks_lem g m low in
    let from_m : bit_and info.load_state elf_next_segment_mask ≡ m =
      ap (λ s. bit_and s elf_next_segment_mask) at ∙ a.low in
    (
      loaded info da noffset nlen nmemsize stop last k,
      phase memory img offset len info (at_stage g m) da noffset nlen nmemsize a.phase
            (ap (λ s. bit_and s ready_to_load) at ∙ a.ready)
          ∙ load_segment-loaded info da noffset nlen nmemsize stop last k
              (ap (λ n. elf_next_load_segment (elf_phnum info.ehdr + 1) info n none) from_m ∙ run_),
      elim first [
        | inl (none_, absent, where_, others) ↦
            Delivers-end g info m da noffset nlen nmemsize stop last k at low few none_
              (end-place info table m k has inside_ absent where_) others
        | inr (lt, same, yes_, there, others) ↦
            let (s, at_s, before) = is_load-some info (k - 1) yes_ in
            Delivers-found g info m da noffset nlen nmemsize stop last k s at lt
              (omega (arith, lt, before)) few (sym there ∙ at_s) (same ∙ sym there ∙ at_s) at_s yes_
              others
      ],
    )
