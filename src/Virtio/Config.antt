-- ===== src/Virtio/Config.antt =====
-- The configuration space of a device: rproc_virtio_write_config and rproc_virtio_read_config.
use mathlib.Core.Path.{ap₂}
use native.Mathlib.Decide.{dec_lt, dec_le}
use v85x_openamp.Base.{
  ℕ, zero, suc, ◌+◌, ◌-◌, ◌≤◌, ◌<◌, ◌≡◌, refl, ◌∙◌, ap, some, List, [], ◌∷◌, arith, length, update,
  leb, ◌⊎◌, inl, inr, ◌%◌, true,
}
use v85x_openamp.Virtqueue.State.{u32}
use v85x_openamp.Virtio.Rproc.{
  RprocVirtio, BlockIo, config_offset, rproc_virtio_read_config, rproc_virtio_write_config,
}

-- bytes from an offset on, and a memory in which they have been replaced
unfoldable pub bytes_at : (ℕ → ℕ) → ℕ → ℕ → List ℕ
bytes_at mem offset zero = []
bytes_at mem offset (suc n) = mem offset ∷ bytes_at mem (suc offset) n

unfoldable pub put_at : (ℕ → ℕ) → ℕ → List ℕ → ℕ → ℕ
put_at mem offset [] = mem
put_at mem offset (x ∷ xs) = put_at (update mem offset x) (suc offset) xs

-- What the library says of a region of `size` bytes at the address `start`: an address in it has an
-- offset, and a block inside it is read and written byte by byte.
pub record RegionOf (io : BlockIo) (start size : ℕ) : Type 0 where
  pub offset_of : (a : ℕ) → start ≤ a → a < start + size → io.virt_to_offset a ≡ a - start
  pub reads :
      (mem : ℕ → ℕ) (offset len : ℕ)
      → offset < size
      → offset + len ≤ size
      → io.block_read mem offset len ≡ some (bytes_at mem offset len)
  pub writes :
      (mem : ℕ → ℕ) (offset : ℕ) (src : List ℕ)
      → offset < size
      → offset + length src ≤ size
      → io.block_write mem offset src ≡ put_at mem offset src

-- bytes outside the block are left alone
put_at_outside :
    (mem : ℕ → ℕ) (offset j : ℕ) (src : List ℕ)
    → (j < offset) ⊎ (offset + length src ≤ j)
    → put_at mem offset src j ≡ mem j
unfolding put_at
put_at_outside mem offset j [] out = refl
put_at_outside mem offset j (x ∷ xs) out =
    ground (arith, out, put_at_outside (update mem offset x) (suc offset) j xs)

bytes_at-put_at :
    (mem : ℕ → ℕ) (offset : ℕ) (src : List ℕ)
    → bytes_at (put_at mem offset src) offset (length src) ≡ src
unfolding bytes_at put_at
bytes_at-put_at mem offset [] = refl
bytes_at-put_at mem offset (x ∷ xs) =
    ap₂ ◌∷◌
      (put_at_outside (update mem offset x) (suc offset) offset xs (inl (omega arith))
        ∙ ground arith)
      (bytes_at-put_at (update mem offset x) (suc offset) xs)

block-cases :
    (offset len j : ℕ) → ((offset ≤ j) × (j < offset + len)) ⊎ ((j < offset) ⊎ (offset + len ≤ j))
block-cases offset len j = go (dec_le offset j) (dec_lt j (offset + len))
  where
    go :
        Dec (offset ≤ j)
        → Dec (j < offset + len)
        → ((offset ≤ j) × (j < offset + len)) ⊎ ((j < offset) ⊎ (offset + len ≤ j))
    go (yes from) (yes below) = inl (from, below)
    go (no from) d = inr (inl (omega (arith, from)))
    go (yes from) (no below) = inr (inr (omega (arith, below)))

module _ (io : BlockIo) (start size : ℕ) (laws : RegionOf io start size)
    (ends : start + size ≤ u32) where
  -- Where the configuration space of a device lies in its I/O region, which has addresses below `2 ^ 32`
  -- and which libmetal reads and writes byte by byte, what is written to at least one byte of the space and inside it is read back; no other
  -- byte of the region changes, and the other core is told once.
  pub read-write_config :
      (v : RprocVirtio) (offset : ℕ) (src : List ℕ)
      → start ≤ v.vdev_rsc.config
      → v.vdev_rsc.config + v.vdev_rsc.config_len ≤ start + size
      → v.vdev_rsc.config_len < u32
      → 0 < length src
      → offset + length src ≤ v.vdev_rsc.config_len
      → let v' = rproc_virtio_write_config io v offset src in
        let at = v.vdev_rsc.config - start + offset in
        (rproc_virtio_read_config io v' offset (length src) ≡ some src)
        × ((j : ℕ)
            → ((at ≤ j) × (j < at + length src)) ⊎ (v'.vdev_rsc.region j ≡ v.vdev_rsc.region j))
        × (v'.sent ≡ v.notifyid ∷ v.sent)
  unfolding rproc_virtio_write_config rproc_virtio_read_config
  read-write_config v offset src low high small some_byte fits =
      let test : leb ((offset + length src) % u32) v.vdev_rsc.config_len ≡ true =
        ground (arith, fits, small) in
      let at = v.vdev_rsc.config - start + offset in
      let address : (v.vdev_rsc.config + offset) % u32 ≡ v.vdev_rsc.config + offset =
        omega (arith, ends, high, fits, some_byte) in
      let place : config_offset io v.vdev_rsc offset ≡ at =
        ap io.virt_to_offset address
        ∙ laws.offset_of (v.vdev_rsc.config + offset) (omega (arith, low))
            (omega (arith, high, fits, some_byte))
        ∙ omega (arith, low) in
      let first : at < size = omega (arith, low, high, fits, some_byte) in
      let last : at + length src ≤ size = omega (arith, low, high, fits) in
      let written = laws.writes v.vdev_rsc.region at src first last in
      let mem = put_at v.vdev_rsc.region at src in
      rw (test, rproc_virtio_write_config, rproc_virtio_read_config)
        (
          rw (test, place, written)
              (laws.reads mem at (length src) first last
                ∙ ap some (bytes_at-put_at v.vdev_rsc.region at src)),
          λ j. elim (block-cases at (length src) j) [
            | inl inside ↦ inl inside
            | inr outside ↦ inr (
                ap (λ o. io.block_write v.vdev_rsc.region o src j) place
                ∙ ap (λ f. f j) written
                ∙ put_at_outside v.vdev_rsc.region at j src outside)
          ],
          refl,
        )
