-- ===== src/RpmsgVirtio/Pool.antt =====
-- rpmsg_virtio_shm_pool_get_buffer: the buffers that the pool of shared memory hands out.
use v85x_openamp.Base.{
  ℕ, zero, suc, ◌+◌, ◌-◌, ◌≤◌, ◌≡◌, refl, Bool, true, false, Option, none, some, List, [], ◌∷◌,
  arith, if◌then◌else◌, ltb, ◌==◌, ◌||◌,
}
use mathlib.Core.Path.{subst}
use v85x_openamp.RpmsgVirtio.State.{ShmPool, rpmsg_virtio_shm_pool_get_buffer}

-- `n` requests of one size: the buffers handed out, in order.
abbrev pub requests : ℕ → ℕ → ShmPool → List ℕ
requests size zero pool = []
requests size (suc n) pool =
    let (got, pool') = rpmsg_virtio_shm_pool_get_buffer pool size in
    let rest = requests size n pool' in elim got [ none ↦ rest | some b ↦ b ∷ rest ]

-- Each buffer of the list starts at `low` or after the end of the one before it, and the last ends at
-- `high` at the latest.
abbrev pub Apart : ℕ → ℕ → ℕ → List ℕ → Type 0
Apart size low high [] = low ≤ high
Apart size low high (b ∷ bs) = (low ≤ b) × Apart size (b + size) high bs

-- However often buffers of one size are asked for, the ones handed out follow each other without
-- overlap in the part of the pool that was left.
pub requests-Apart :
    (size n : ℕ) (pool : ShmPool)
    → pool.avail ≤ pool.size
    → Apart size
        (pool.base + (pool.size - pool.avail))
        (pool.base + pool.size)
        (requests size n pool)
unfolding rpmsg_virtio_shm_pool_get_buffer
requests-Apart size zero pool fits = omega arith
requests-Apart size (suc n) pool fits =
    go ((size == 0) || ltb pool.avail size) refl (requests-Apart size n pool fits)
      (requests-Apart size n (record pool { avail = pool.avail - size }) (omega (arith, fits)))
  where
    low : ℕ
    low = pool.base + (pool.size - pool.avail)

    left : ShmPool
    left = record pool { avail = pool.avail - size }

    go :
        (b : Bool)
        → ((size == 0) || ltb pool.avail size) ≡ b
        → Apart size low (pool.base + pool.size) (requests size n pool)
        → Apart size
            (pool.base + (pool.size - (pool.avail - size)))
            (pool.base + pool.size)
            (requests size n left)
        → let r : Option ℕ × ShmPool =
            if b then (none, pool) else (some (pool.base + pool.size - pool.avail), left) in
          Apart size low (pool.base + pool.size) (elim r.0 as (λ _. List ℕ) [
            | none ↦ requests size n r.1
            | some b ↦ b ∷ requests size n r.1
          ])
    go true e skip next = skip
    go false e skip next = (
      omega (arith, fits),
      subst (λ l. Apart size l (pool.base + pool.size) (requests size n left))
          (ground (arith, fits, e)) next,
    )
