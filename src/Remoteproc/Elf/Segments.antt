-- ===== src/Remoteproc/Elf/Segments.antt =====
-- elf_next_load_segment: the next segment to be loaded.
use v85x_openamp.Base.{
  ℕ, zero, suc, ◌+◌, ◌-◌, ◌≤◌, ◌<◌, ◌≡◌, refl, ◌∙◌, ap, ◌⊎◌, inl, inr, Bool, true, false, Option,
  none, some, arith, Bool-cases, ◌==◌,
}
use v85x_openamp.Virtqueue.State.{ok}
use native.Mathlib.Decide.{dec_lt}
use v85x_openamp.Remoteproc.Elf.{Bytes, ElfInfo, elf_phnum}
use v85x_openamp.Remoteproc.Elf.Load.{
  pt_load, Segment, elf_parse_segment, elf_get_segment_from_index, elf_next_load_segment,
}

-- the program header of an index, read
abbrev pub parsed : ElfInfo → Option Bytes → Option Segment
parsed info none = none
parsed info (some phdr) = some (elf_parse_segment info phdr)

abbrev pub segment_at : ElfInfo → ℕ → Option Segment
segment_at info j = parsed info (elf_get_segment_from_index info j)

abbrev pub loadable : Option Segment → Bool
loadable none = false
loadable (some s) = s.p_type == pt_load

abbrev pub is_load : ElfInfo → ℕ → Bool
is_load info j = loadable (segment_at info j)

past_none :
    (info : ElfInfo) (i j : ℕ)
    → elf_get_segment_from_index info i ≡ none
    → i ≤ j
    → elf_get_segment_from_index info j ≡ none
unfolding elf_get_segment_from_index
past_none info i j e le = ground (arith, e, le)

pub none_past :
    (info : ElfInfo) (i : ℕ) → elf_phnum info.ehdr ≤ i → elf_get_segment_from_index info i ≡ none
unfolding elf_get_segment_from_index
none_past info i le = ground (arith, le)

pub header-cases :
    (info : ElfInfo) (i : ℕ)
    → (elf_get_segment_from_index info i ≡ none)
      ⊎ ((phdr : Bytes) × (elf_get_segment_from_index info i ≡ some phdr))
header-cases info i = go (elf_get_segment_from_index info i) refl
  where
    go :
        (o : Option Bytes)
        → elf_get_segment_from_index info i ≡ o
        → (elf_get_segment_from_index info i ≡ none)
          ⊎ ((phdr : Bytes) × (elf_get_segment_from_index info i ≡ some phdr))
    go none e = inl e
    go (some phdr) e = inr (phdr, e)

pub inside :
    (info : ElfInfo) (i : ℕ) (phdr : Bytes)
    → elf_get_segment_from_index info i ≡ some phdr
    → i < elf_phnum info.ehdr
inside info i phdr there = elim (dec_lt i (elf_phnum info.ehdr)) [
  | yes l ↦ l
  | no g ↦ absurd (ground (arith, none_past info i (omega (arith, g)), there))
]

back : (n : ℕ) → n + 1 - 1 ≡ n
back n = omega arith

-- Where the search from the segment `nseg` on has stopped: behind the last one, or behind one that is
-- to be loaded.
abbrev pub First : ElfInfo → ℕ → Option Segment → Option Segment → ℕ → Type 0
First info nseg stop last k =
    ((stop ≡ none)
      × (elf_get_segment_from_index info k ≡ none)
      × ((k ≡ nseg) ⊎ (k ≤ elf_phnum info.ehdr))
      × ((j : ℕ) → (j < nseg) ⊎ (is_load info j ≡ false)))
    ⊎ ((nseg < k)
        × (last ≡ stop)
        × (is_load info (k - 1) ≡ true)
        × (segment_at info (k - 1) ≡ stop)
        × ((j : ℕ) → (j < nseg) ⊎ ((k ≤ j + 1) ⊎ (is_load info j ≡ false))))

First-skip :
    (info : ElfInfo) (nseg : ℕ) (stop last : Option Segment) (k : ℕ)
    → nseg < elf_phnum info.ehdr
    → is_load info nseg ≡ false
    → First info (nseg + 1) stop last k
    → First info nseg stop last k
First-skip info nseg stop last k here no_ (inl (e, absent, at, others)) =
    inl (e, absent, inr (ground (arith, at, here)), λ j. later j (others j))
  where
    later :
        (j : ℕ) → (j < nseg + 1) ⊎ (is_load info j ≡ false) → (j < nseg) ⊎ (is_load info j ≡ false)
    later j (inr o) = inr o
    later j (inl b) = elim (dec_lt j nseg) [
      | yes l ↦ inl l
      | no g ↦ let same : j ≡ nseg = omega (arith, b, g) in inr (ap (is_load info) same ∙ no_)
    ]
First-skip info nseg stop last k here no_ (inr (lt, same_, yes_, at, others)) =
    inr (omega (arith, lt), same_, yes_, at, λ j. between j (others j))
  where
    between :
        (j : ℕ)
        → (j < nseg + 1) ⊎ ((k ≤ j + 1) ⊎ (is_load info j ≡ false))
        → (j < nseg) ⊎ ((k ≤ j + 1) ⊎ (is_load info j ≡ false))
    between j (inr o) = inr o
    between j (inl b) = elim (dec_lt j nseg) [
      | yes l ↦ inl l
      | no g ↦ let same : j ≡ nseg = omega (arith, b, g) in inr (inr (ap (is_load info) same ∙ no_))
    ]

-- The search ends once it is given a round for each segment that is left and one more, and finds the
-- first segment from `nseg` on that is to be loaded, or that there is none.
pub elf_next_load_segment-First :
    (fuel : ℕ) (info : ElfInfo) (nseg : ℕ) (read : Option Segment)
    → 0 < fuel
    → elf_phnum info.ehdr < nseg + fuel
    → (stop : Option Segment) × (last : Option Segment) × (k : ℕ) × (elf_next_load_segment fuel info
          nseg read
        ≡ ok (stop, last, k))
      × First info nseg stop last k
unfolding elf_next_load_segment
elf_next_load_segment-First zero info nseg read some_ enough = absurd (omega (arith, some_))
elf_next_load_segment-First (suc fuel) info nseg read some_ enough = elim (header-cases info nseg) [
  | inl absent ↦ (
    none,
    read,
    nseg,
    rw (elf_next_load_segment, absent) refl,
    inl (
      refl,
      absent,
      inl refl,
      λ j. elim (dec_lt j nseg) [
        | yes l ↦ inl l
        | no g ↦
            inr
              (ap (λ o. loadable (parsed info o)) (past_none info nseg j absent (omega (arith, g))))
      ],
    ),
  )
  | inr (phdr, there) ↦ elim (Bool-cases ((elf_parse_segment info phdr).p_type == pt_load)) [
    | inl yes_ ↦ (
      some (elf_parse_segment info phdr),
      some (elf_parse_segment info phdr),
      nseg + 1,
      rw (elf_next_load_segment, there, yes_) refl,
      inr (
        omega arith,
        refl,
        ap (is_load info) (back nseg) ∙ ap (λ o. loadable (parsed info o)) there ∙ yes_,
        ap (segment_at info) (back nseg) ∙ ap (parsed info) there,
        λ j. elim (dec_lt j nseg) [ yes l ↦ inl l | no g ↦ inr (inl (omega (arith, g))) ],
      ),
    )
    | inr no_ ↦
        let (stop, last, k, run_, first) =
          elf_next_load_segment-First fuel info (nseg + 1) (some (elf_parse_segment info phdr))
            (ground (arith, enough, inside info nseg phdr there)) (omega (arith, enough)) in
        (
          stop,
          last,
          k,
          rw (elf_next_load_segment, there, no_) run_,
          First-skip info nseg stop last k (inside info nseg phdr there)
              (ap (λ o. loadable (parsed info o)) there ∙ no_) first,
        )
  ]
]
