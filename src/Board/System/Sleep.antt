-- ===== src/Board/System/Sleep.antt =====
-- The waits of system.c end, and when.
use native.Mathlib.Decide.{dec_lt}
use v85x_openamp.Base.{
  ap, ℕ, zero, suc, ◌+◌, ◌-◌, ◌%◌, ◌≤◌, ◌<◌, ◌≡◌, refl, true, false, arith, ltb, inl, inr, ◌⊎◌,
}
use v85x_openamp.Virtqueue.State.{ok, u32}
use v85x_openamp.Board.System.{wait_ticks, system_msleep}

-- The tick as it is read: `passed i` ticks lie between the first read and the read `i`, and the tick
-- has 32 bits, which may run over in between.
pub record Clock (ticks passed : ℕ → ℕ) : Type 0 where
  pub first : ticks 0 < u32
  pub shown : (i : ℕ) → ticks i ≡ (ticks 0 + passed i) % u32
  pub forward : (i : ℕ) → passed i ≤ passed (suc i)

module _ (ticks passed : ℕ → ℕ) (clock : Clock ticks passed) (tmo last : ℕ)
    (over : tmo ≤ passed last) (small : passed last < u32) where
  earlier : (i n : ℕ) → i + n ≡ last → passed i < u32
  earlier i n e = omega (arith, go n i e, small)
    where
      go : (m j : ℕ) → j + m ≡ last → passed j ≤ passed last
      go zero j f = let same : j ≡ last = omega (arith, f) in rw same (omega arith)
      go (suc m) j f = omega (arith, clock.forward j, go m (suc j) (omega (arith, f)))

  -- one read of the tick
  elapsed : (i : ℕ) → passed i < u32 → (ticks i + u32 - ticks 0) % u32 ≡ passed i
  elapsed i below = omega (arith, clock.first, clock.shown i, below)

  wait_ticks_lem :
      (n i fuel : ℕ)
      → i + n ≡ last
      → n < fuel
      → (k : ℕ) × (wait_ticks fuel ticks (ticks 0) tmo i ≡ ok k)
        × (i ≤ k)
        × (k ≤ last)
        × (tmo ≤ passed k)
        × ((j : ℕ) → (j < i) ⊎ ((k ≤ j) ⊎ (passed j < tmo)))
  unfolding wait_ticks
  wait_ticks_lem n i zero e enough = absurd (omega (arith, enough))
  wait_ticks_lem zero i (suc fuel) e enough =
      let same : i ≡ last = omega (arith, e) in
      let done : ltb ((ticks i + u32 - ticks 0) % u32) tmo ≡ false =
        rw (elapsed i (earlier i zero e)) (ground (arith, over, ap passed same)) in
      (
        i,
        rw (wait_ticks, done) refl,
        omega arith,
        omega (arith, e),
        omega (arith, over, ap passed same),
        λ j. elim (dec_lt j i) [ yes h ↦ inl h | no h ↦ inr (inl (omega (arith, h))) ],
      )
  wait_ticks_lem (suc n) i (suc fuel) e enough =
      let read = elapsed i (earlier i (suc n) e) in
      elim (dec_lt (passed i) tmo) [
        | yes h ↦
            let more : ltb ((ticks i + u32 - ticks 0) % u32) tmo ≡ true =
              rw read (ground (arith, h)) in
            let (k, call, from, to, waited, before) =
              wait_ticks_lem n (suc i) fuel (omega (arith, e)) (omega (arith, enough)) in
            (
              k,
              rw (wait_ticks, more) call,
              omega (arith, from),
              to,
              waited,
              λ j. first_or k i h j (before j),
            )
        | no h ↦
            let done : ltb ((ticks i + u32 - ticks 0) % u32) tmo ≡ false =
              rw read (ground (arith, h)) in
            (
              i,
              rw (wait_ticks, done) refl,
              omega arith,
              omega (arith, e),
              omega (arith, h),
              λ j. elim (dec_lt j i) [ yes b ↦ inl b | no b ↦ inr (inl (omega (arith, b))) ],
            )
      ]
    where
      first_or :
          (k m : ℕ)
          → passed m < tmo
          → (j : ℕ) → (j < suc m) ⊎ ((k ≤ j) ⊎ (passed j < tmo))
          → (j < m) ⊎ ((k ≤ j) ⊎ (passed j < tmo))
      first_or k m h j (inr o) = inr o
      first_or k m h j (inl b) = elim (dec_lt j m) [
        | yes l ↦ inl l
        | no g ↦
            let same : j ≡ m = omega (arith, b, g) in inr (inr (omega (arith, h, ap passed same)))
      ]

  -- Where the tick goes on, system_msleep ends: at the first read after the start at which `tmo` ticks
  -- have passed, also if the 32 bits of the tick have run over since.
  pub system_msleep-ends :
      (fuel : ℕ)
      → 0 < last
      → last < fuel
      → (k : ℕ) × (system_msleep fuel ticks tmo ≡ ok k)
        × (k ≤ last)
        × (tmo ≤ passed k)
        × ((j : ℕ) → (j < 1) ⊎ ((k ≤ j) ⊎ (passed j < tmo)))
  unfolding system_msleep
  system_msleep-ends fuel some_read enough =
      let (k, call, from, to, waited, before) =
        wait_ticks_lem (last - 1) 1 fuel (omega (arith, some_read)) (omega (arith, enough)) in
      (k, call, to, waited, before)
