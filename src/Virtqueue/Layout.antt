-- ===== src/Virtqueue/Layout.antt =====
-- include/openamp/virtio_ring.h: the place of the three tables of a ring in memory, vring_size and
-- vring_init.
use native.Mathlib.Nat.{mod-add-mod, mod-lt, one-le-pow, div-add-mod', mul-add-mod_self_right}
use v85x_openamp.Base.{ℕ, ◌+◌, ◌-◌, ◌*◌, ◌/◌, ◌%◌, ◌^◌, ◌≤◌, ◌<◌, ◌≡◌, ap, ◌∙◌, sym, arith, bit_and}
use v85x_openamp.Base.Bits.{bit_and_high_mask}
use v85x_openamp.Virtqueue.State.{u32}

-- sizeof(struct vring_desc)
abbrev pub desc_size : ℕ
desc_size = 16

-- sizeof(struct vring_avail) and sizeof(struct vring_used)
abbrev pub head_size : ℕ
head_size = 4

-- sizeof(uint16_t)
abbrev pub index_size : ℕ
index_size = 2

-- sizeof(struct vring_used_elem)
abbrev pub elem_size : ℕ
elem_size = 8

-- `(x + align - 1) & ~(align - 1)` of 32 bits, for an `align` that is not 0
unfoldable pub align_up : ℕ → ℕ → ℕ
align_up x align = bit_and ((x + align - 1) % u32) (u32 - align)

unfoldable pub vring_size : ℕ → ℕ → ℕ
unfolding align_up
vring_size num align =
    (align_up (num * desc_size + head_size + num * index_size + index_size) align
      + head_size
      + num * elem_size
      + index_size)
    % u32

-- the addresses of the tables
pub record Layout : Type 0 where
  pub num : ℕ
  pub desc : ℕ
  pub avail : ℕ
  pub used : ℕ

unfoldable pub vring_init : ℕ → ℕ → ℕ → Layout
unfolding align_up
vring_init num p align =
    let avail = (p + num * desc_size) % u32 in
    record {
      num = num;
      desc = p;
      avail = avail;
      used = align_up ((avail + head_size + num * index_size) % u32 + index_size) align;
    }

-- the next multiple
module _ (k : ℕ) (narrow : k ≤ 32) where
  align_up_lem :
      (x : ℕ) → x + 2 ^ k < u32 → align_up x (2 ^ k) + (x + 2 ^ k - 1) % 2 ^ k ≡ x + 2 ^ k - 1
  unfolding align_up
  align_up_lem x fits =
      let small : (x + 2 ^ k - 1) % u32 ≡ x + 2 ^ k - 1 = omega (arith, fits) in
      rw small (bit_and_high_mask k 32 (x + 2 ^ k - 1) narrow ∙ small)

  align_up-bounds :
      (x : ℕ) → x + 2 ^ k < u32 → (x ≤ align_up x (2 ^ k)) × (align_up x (2 ^ k) < x + 2 ^ k)
  align_up-bounds x fits =
      let some_align = one-le-pow k 2 in
      let rest = mod-lt (x + 2 ^ k - 1) {m = 2 ^ k} (omega (arith, some_align)) in
      (
        omega (arith, rest, align_up_lem x fits, some_align),
        omega (arith, rest, align_up_lem x fits, some_align),
      )

  align_up-mod : (x : ℕ) → x + 2 ^ k < u32 → align_up x (2 ^ k) % 2 ^ k ≡ 0
  align_up-mod x fits =
      let z = x + 2 ^ k - 1 in
      let multiple : align_up x (2 ^ k) ≡ z / 2 ^ k * 2 ^ k + 0 =
        omega (arith, align_up_lem x fits, div-add-mod' z (2 ^ k)) in
      ap (λ t. t % 2 ^ k) multiple ∙ mul-add-mod_self_right (z / 2 ^ k) (2 ^ k) 0 ∙ ground arith

  -- an aligned start does not matter
  align_up-shift :
      (p x : ℕ)
      → p % 2 ^ k ≡ 0
      → p + x + 2 ^ k < u32
      → align_up (p + x) (2 ^ k) ≡ p + align_up x (2 ^ k)
  align_up-shift p x aligned fits =
      let rest : (p + x + 2 ^ k - 1) % 2 ^ k ≡ (x + 2 ^ k - 1) % 2 ^ k =
        ap (λ t. t % 2 ^ k) (omega (arith, one-le-pow k 2))
        ∙ sym (mod-add-mod p (2 ^ k) (x + 2 ^ k - 1))
        ∙ ap (λ t. (t + (x + 2 ^ k - 1)) % 2 ^ k) aligned
        ∙ ap (λ t. t % 2 ^ k) (omega arith) in
      omega (
        arith,
        rest,
        align_up_lem (p + x) fits,
        align_up_lem x (omega (arith, fits)),
        one-le-pow k 2,
      )

  -- For an aligned start and a power of two as alignment, and a ring that ends below 2^32 with room for
  -- the padding: the three tables follow each other without overlap, each with the index behind it,
  -- the used ring is aligned, and the last of it ends where vring_size says.
  pub vring_init-vring_size :
      (num p : ℕ)
      → p % 2 ^ k ≡ 0
      → p + num * 26 + 2 ^ k + 12 < u32
      → let l = vring_init num p (2 ^ k) in
        (l.desc + num * desc_size ≤ l.avail)
        × (l.avail + head_size + num * index_size + index_size ≤ l.used)
        × (l.used % 2 ^ k ≡ 0)
        × (l.used + head_size + num * elem_size + index_size ≡ p + vring_size num (2 ^ k))
  unfolding vring_init vring_size
  vring_init-vring_size num p aligned fits =
      let total = num * 18 + 6 in
      let start : ((p + num * desc_size) % u32 + head_size + num * index_size) % u32 + index_size
          ≡ p + total =
        omega (arith, fits) in
      let front : num * desc_size + head_size + num * index_size + index_size ≡ total =
        omega arith in
      let bounds = align_up-bounds (p + total) (omega (arith, fits)) in
      let shifted = align_up-shift p total aligned (omega (arith, fits)) in
      rw (start, front)
        (
          omega (arith, fits),
          omega (arith, fits, bounds),
          align_up-mod (p + total) (omega (arith, fits)),
          omega (arith, fits, bounds, shifted),
        )
