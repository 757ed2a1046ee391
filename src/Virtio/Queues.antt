-- ===== src/Virtio/Queues.antt =====
-- rproc_virtio_create_virtqueues: the queues that it makes, or takes back.
use native.Mathlib.Decide.{dec_lt}
use v85x_openamp.Base.{
  ℕ, zero, suc, ◌+◌, ◌≤◌, ◌<◌, ◌≡◌, ◌≢◌, refl, ◌∙◌, Bool, true, false, arith, ltb, leb,
  if◌then◌else◌,
}
use v85x_openamp.Virtqueue.State.{Env, Status, success, is_success}
use v85x_openamp.Virtio.Rproc.{
  RprocVirtio, QueuePointer, null, freed, queue, released, set_vq, is_null, delete_loop,
  rproc_virtio_delete_virtqueues, rproc_virtio_create_virtqueue, create_loop,
  rproc_virtio_create_virtqueues,
}

abbrev pub is_live : QueuePointer → Bool
is_live null = false
is_live freed = false
is_live (queue vq) = true

-- whether the vring `j` has a queue
abbrev pub live : RprocVirtio → ℕ → Bool
live v j = is_live (v.vrings_info j).vq

delete_loop-live :
    (r i j : ℕ) (v : RprocVirtio)
    → live (delete_loop v i r) j
      ≡ (if leb i j then (if ltb j (i + r) then false else live v j) else live v j)
unfolding delete_loop
delete_loop-live zero i j v = ground arith
delete_loop-live (suc r) i j v =
    ground (arith, delete_loop-live r (suc i) j (set_vq v i (released (v.vrings_info i).vq)), dead)
  where
    dead : is_live (released (v.vrings_info i).vq) ≡ false
    dead = go (v.vrings_info i).vq
      where
        go : (p : QueuePointer) → is_live (released p) ≡ false
        go null = refl
        go freed = refl
        go (queue vq) = refl

delete-live :
    (v : RprocVirtio) (j : ℕ) → j < v.vrings_num → live (rproc_virtio_delete_virtqueues v) j ≡ false
unfolding rproc_virtio_delete_virtqueues
delete-live v j h = delete_loop-live v.vrings_num 0 j v ∙ ground (arith, h)

-- Other vrings are left alone, and one that is created has its queue.
record Created (v v' : RprocVirtio) (idx : ℕ) (status : Status) : Type 0 where
  pub vrings_num : v'.vrings_num ≡ v.vrings_num
  pub here : status ≡ success → live v' idx ≡ true
  pub others : (j : ℕ) → j ≢ idx → live v' j ≡ live v j

module _ (env : Env) (memory : ℕ → Bool) where
  create-Created :
      (v : RprocVirtio) (idx : ℕ) (callback : Bool)
      → let (status, v') = rproc_virtio_create_virtqueue env memory v idx callback in
        Created v v' idx status
  unfolding rproc_virtio_create_virtqueue
  create-Created v idx callback =
      go (is_null (v.vrings_info idx).vq) refl (memory (v.vrings_info idx).num_descs) refl
    where
      go :
          (a : Bool)
          → is_null (v.vrings_info idx).vq ≡ a
          → (b : Bool) → memory (v.vrings_info idx).num_descs ≡ b
          → let (status, v') = rproc_virtio_create_virtqueue env memory v idx callback in
            Created v v' idx status
      go false ea b eb =
          rw (rproc_virtio_create_virtqueue, ea)
            (record { vrings_num = refl; here = λ e. cc; others = λ j ne. refl })
      go true ea false eb =
          rw (rproc_virtio_create_virtqueue, ea, eb)
            (record { vrings_num = refl; here = λ e. cc; others = λ j ne. refl })
      go true ea true eb =
          rw (rproc_virtio_create_virtqueue, ea, eb)
            (record {
              vrings_num = refl;
              here = λ e. ground arith;
              others = λ j ne. ground (arith, ne);
            })

  create_loop-live :
      (callbacks : ℕ → Bool) (r i : ℕ) (v : RprocVirtio)
      → i + r ≤ v.vrings_num
      → ((j : ℕ) → j < i → live v j ≡ true)
      → let (status, v') = create_loop env memory v callbacks i r in
        (status ≡ success → (j : ℕ) → j < i + r → live v' j ≡ true)
        × (status ≢ success → (j : ℕ) → j < v.vrings_num → live v' j ≡ false)
  unfolding create_loop
  create_loop-live callbacks zero i v fits before =
      (λ e j h. before j (omega (arith, h)), λ ne. absurd (ne refl))
  create_loop-live callbacks (suc r) i v fits before =
      let made = create-Created v i (callbacks i) in
      go made (is_success (rproc_virtio_create_virtqueue env memory v i (callbacks i)).0) refl
        λ done.
          create_loop-live callbacks r (suc i)
            (rproc_virtio_create_virtqueue env memory v i (callbacks i)).1
            (omega (arith, made.vrings_num, fits))
            (λ j h. elim (dec_lt j i) [
              | yes lt ↦ made.others j (λ e. omega (arith, lt, e)) ∙ before j lt
              | no ge ↦ let same : j ≡ i = omega (arith, h, ge) in rw same (made.here done)
            ])
    where
      v' : RprocVirtio
      v' = (rproc_virtio_create_virtqueue env memory v i (callbacks i)).1

      Goal : Status × RprocVirtio → Type 0
      Goal (st, w) =
          (st ≡ success → (j : ℕ) → j < i + suc r → live w j ≡ true)
          × (st ≢ success → (j : ℕ) → j < v.vrings_num → live w j ≡ false)

      succeeded : (st : Status) → is_success st ≡ true → st ≡ success
      succeeded success e = refl
      succeeded st e = ground arith

      go :
          Created v v' i (rproc_virtio_create_virtqueue env memory v i (callbacks i)).0
          → (b : Bool)
          → is_success (rproc_virtio_create_virtqueue env memory v i (callbacks i)).0 ≡ b
          → ((rproc_virtio_create_virtqueue env memory v i (callbacks i)).0 ≡ success
              → let (st, w) = create_loop env memory v' callbacks (suc i) r in
                (st ≡ success → (j : ℕ) → j < suc i + r → live w j ≡ true)
                × (st ≢ success → (j : ℕ) → j < v'.vrings_num → live w j ≡ false))
          → Goal (create_loop env memory v callbacks i (suc r))
      go made true e later =
          let ih = later (succeeded _ e) in
          rw (create_loop, e)
            (
              λ st j h. ih.0 st j (omega (arith, h)),
              λ ne j h. ih.1 ne j (omega (arith, h, made.vrings_num)),
            )
      go made false e later =
          rw (create_loop, e)
            (
              λ st. absurd (failed st e),
              λ ne j h. delete-live v' j (omega (arith, h, made.vrings_num)),
            )
        where
          failed : {st : Status} → st ≡ success → is_success st ≡ false → ⊥
          failed st e = ground (arith, st, e)

  -- For queues that the device has vrings for: where they are created, each of these vrings has its
  -- queue, and where not, because a vring has one already, memory is short or a check of
  -- VQUEUE_DEBUG fails, none of them has a queue that is live.
  pub rproc_virtio_create_virtqueues-live :
      (v : RprocVirtio) (nvqs : ℕ) (callbacks : ℕ → Bool) (j : ℕ)
      → nvqs ≤ v.vrings_num
      → j < nvqs
      → let (status, v') = rproc_virtio_create_virtqueues env memory v nvqs callbacks in
        live v' j ≡ is_success status
  unfolding rproc_virtio_create_virtqueues
  rproc_virtio_create_virtqueues-live v nvqs callbacks j fits h =
      let some_rings : ltb v.vrings_num nvqs ≡ false = ground (arith, fits) in
      let loop =
        create_loop-live callbacks nvqs 0 v (omega (arith, fits))
          (λ i below. absurd (omega (arith, below))) in
      rw (rproc_virtio_create_virtqueues, some_rings)
        (decide _ (λ e. loop.0 e j (omega (arith, h))) (λ e. loop.1 e j (omega (arith, h, fits))))
    where
      decide :
          {b : Bool} (st : Status)
          → (st ≡ success → b ≡ true)
          → (st ≢ success → b ≡ false)
          → b ≡ is_success st
      decide success t f = t refl
      decide st t f = f (λ e. ground (arith, e))
