-- ===== src/Remoteproc/Find.antt =====
-- find_rsc of rsc_table_parser.c against the list of the resources of a type.
use v85x_openamp.Base.{
  ℕ, zero, suc, ◌+◌, ◌≡◌, ◌∙◌, ap, refl, List, [], ◌∷◌, arith, ◌==◌, if◌then◌else◌, Bool-cases, inl,
  inr,
}
use v85x_openamp.Remoteproc.Table.{Resource, ResourceTable, find_loop, find_rsc}

-- the offsets of the resources of a type, in their order
abbrev pub of_type : (ℕ → Resource) → ℕ → List ℕ → List ℕ
of_type at rsc_type [] = []
of_type at rsc_type (o ∷ os) =
    if (at o).rsc_type == rsc_type then o ∷ of_type at rsc_type os else of_type at rsc_type os

-- the element of an index, or 0
abbrev pub nth : List ℕ → ℕ → ℕ
nth [] i = 0
nth (x ∷ xs) zero = x
nth (x ∷ xs) (suc i) = nth xs i

find_loop_lem :
    (os : List ℕ) (at : ℕ → Resource) (rsc_type rsc_index i : ℕ)
    → find_loop os at rsc_type (rsc_index + i) rsc_index ≡ nth (of_type at rsc_type os) i
unfolding find_loop
find_loop_lem [] at rsc_type rsc_index i = refl
find_loop_lem (o ∷ os) at rsc_type rsc_index zero =
    ground (arith, find_loop_lem os at rsc_type rsc_index zero)
find_loop_lem (o ∷ os) at rsc_type rsc_index (suc i) =
    let later : find_loop os at rsc_type (rsc_index + suc i) (suc rsc_index)
        ≡ nth (of_type at rsc_type os) i =
      ap (λ k. find_loop os at rsc_type k (suc rsc_index)) (omega arith)
      ∙ find_loop_lem os at rsc_type (suc rsc_index) i in
    let same = find_loop_lem os at rsc_type rsc_index (suc i) in
    elim (Bool-cases ((at o).rsc_type == rsc_type)) [
      | inl yes_ ↦ rw (find_loop, yes_) (ground (arith, later))
      | inr no_ ↦ rw (find_loop, no_) same
    ]

-- The offset found is that of the resource of this index among those of the type in the table, in
-- their order, and 0 where there are not that many.
pub find_rsc-nth :
    (table : ResourceTable) (rsc_type index : ℕ)
    → find_rsc table rsc_type index ≡ nth (of_type table.at rsc_type table.offset) index
unfolding find_rsc
find_rsc-nth table rsc_type index =
    ap (λ k. find_loop table.offset table.at rsc_type k 0) (omega arith)
    ∙ find_loop_lem table.offset table.at rsc_type 0 index
