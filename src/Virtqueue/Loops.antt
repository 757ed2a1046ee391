-- ===== src/Virtqueue/Loops.antt =====
-- The loops of virtqueue.c on a chain of distinct descriptors.
use v85x_openamp.Base.{
  ℕ, zero, suc, ◌+◌, ◌-◌, ◌≤◌, ◌<◌, ◌≡◌, refl, ◌∙◌, List, [], ◌∷◌, arith, length, update, bit_and,
}
use v85x_openamp.Virtqueue.State.{
  ok, Env, VringDesc, VirtqueueBuf, vqassert, desc_f_next, desc_f_indirect, chain_end, u16,
}
use v85x_openamp.Virtqueue.Ring.{buffer_flags, fill_desc, add_loop, free_loop}
use v85x_openamp.Base.Count.{count}
use v85x_openamp.Virtqueue.Chains.{LinkedTo, IsChain, last, LinkedTo-frame}

module _ (env : Env) (bufs : ℕ → VirtqueueBuf) (readable needed : ℕ) where
  -- the descriptors `is` filled with the buffers from `i` on
  abbrev pub fill_all : (ℕ → VringDesc) → List ℕ → ℕ → ℕ → VringDesc
  fill_all desc [] i = desc
  fill_all desc (x ∷ is) i =
      fill_all (update desc x (fill_desc env bufs readable needed i (desc x))) is (i + 1)

  pub fill_all-next :
      (desc : ℕ → VringDesc) (is : List ℕ) (i j : ℕ) → (fill_all desc is i j).next ≡ (desc j).next
  unfolding fill_desc
  fill_all-next desc [] i j = refl
  fill_all-next desc (x ∷ is) i j =
      fill_all-next (update desc x (fill_desc env bufs readable needed i (desc x))) is (i + 1) j
      ∙ ground arith

  pub fill_all_outside :
      (desc : ℕ → VringDesc) (is : List ℕ) (i j : ℕ)
      → count j is ≡ 0
      → fill_all desc is i j ≡ desc j
  fill_all_outside desc [] i j h = refl
  fill_all_outside desc (x ∷ is) i j h =
      fill_all_outside (update desc x (fill_desc env bufs readable needed i (desc x))) is (i + 1) j
        (omega (arith, h))
      ∙ ground (arith, h)

  -- each descriptor holds its buffer
  abbrev pub Filled : (ℕ → VringDesc) → (ℕ → VringDesc) → List ℕ → ℕ → Type 0
  Filled desc desc' [] i = Unit
  Filled desc desc' (x ∷ is) i =
      (desc' x ≡ fill_desc env bufs readable needed i (desc x)) × Filled desc desc' is (i + 1)

  flags_continue :
      (i : ℕ) → i + 1 < needed → bit_and (buffer_flags readable needed i) desc_f_next ≡ 1
  unfolding buffer_flags
  flags_continue i h = ground arith

  flags_stop : (i : ℕ) → i + 1 ≡ needed → bit_and (buffer_flags readable needed i) desc_f_next ≡ 0
  unfolding buffer_flags
  flags_stop i h = ground arith

  pub flags_direct : (i : ℕ) → bit_and (buffer_flags readable needed i) desc_f_indirect ≡ 0
  unfolding buffer_flags
  flags_direct i = ground arith

  Filled-frame :
      (desc old desc' : ℕ → VringDesc) (is : List ℕ) (i : ℕ)
      → ((k : ℕ) → 0 < count k is → old k ≡ desc k)
      → Filled old desc' is i
      → Filled desc desc' is i
  Filled-frame desc old desc' [] i same p = p
  Filled-frame desc old desc' (x ∷ is) i same p = (
    ground (arith, same x),
    Filled-frame desc old desc' is (i + 1) (λ k h. same k (omega arith)) p.1,
  )

  pub fill_all-Filled :
      (desc : ℕ → VringDesc) (is : List ℕ) (i : ℕ)
      → ((j : ℕ) → count j is ≤ 1)
      → Filled desc (fill_all desc is i) is i
  fill_all-Filled desc [] i once = tt
  fill_all-Filled desc (x ∷ is) i once =
      let filled = update desc x (fill_desc env bufs readable needed i (desc x)) in
      (
        fill_all_outside filled is (i + 1) x (ground (arith, once x)) ∙ ground arith,
        Filled-frame desc filled (fill_all filled is (i + 1)) is (i + 1)
            (λ k h. ground (arith, once k))
            (fill_all-Filled filled is (i + 1) (λ k. omega (arith, once k))),
      )

  -- Filled descriptors make one buffer chain.
  pub IsChain-of_Filled :
      (desc desc' : ℕ → VringDesc) (x : ℕ) (is : List ℕ) (h e i : ℕ)
      → Filled desc desc' (x ∷ is) i
      → LinkedTo desc h (x ∷ is) e
      → i + length (x ∷ is) ≡ needed
      → IsChain desc' (x ∷ is)
  unfolding fill_desc
  IsChain-of_Filled desc desc' x [] h e i f l n = ground (arith, f.0, flags_stop i)
  IsChain-of_Filled desc desc' x (y ∷ is) h e i f l n = (
    ground (arith, f.0, flags_continue i),
    ground (arith, f.0, l.1.0),
    IsChain-of_Filled desc desc' y is (desc x).next e (i + 1) f.1 l.1 (omega arith),
  )

  pub add_loop_lem :
      (desc : ℕ → VringDesc) (is : List ℕ) (idx e i : ℕ)
      → LinkedTo desc idx is e
      → ((j : ℕ) → count j is ≤ 1)
      → count chain_end is ≡ 0
      → add_loop env bufs readable needed desc idx i (length is) ≡ ok (e, fill_all desc is i)
  unfolding add_loop vqassert
  add_loop_lem desc [] idx e i p once inside = rw p
  add_loop_lem desc (x ∷ is) idx e i p once inside =
      let filled = update desc x (fill_desc env bufs readable needed i (desc x)) in
      let linked : LinkedTo filled (desc x).next is e =
        LinkedTo-frame desc filled (desc x).next e is (λ k h. ground (arith, once k)) p.1 in
      ground (
        arith,
        p.0,
        inside,
        add_loop_lem filled is (desc x).next e (i + 1) linked (λ k. omega (arith, once k))
            (omega (arith, inside)),
      )

module _ (env : Env) where
  -- the walk along a buffer chain
  pub free_loop_lem :
      (desc : ℕ → VringDesc) (n fuel i nd : ℕ) (is : List ℕ)
      → IsChain desc (i ∷ is)
      → ((j : ℕ) → n ≤ j → count j is ≡ 0)
      → length is < fuel
      → length is ≤ nd
      → nd < u16
      → free_loop env fuel desc n i nd ≡ ok (last i is, nd - length is)
  unfolding free_loop vqassert
  free_loop_lem desc n zero i nd is c inside fuel enough small = absurd (omega arith)
  free_loop_lem desc n (suc f) i nd [] c inside fuel enough small = ground (arith, c)
  free_loop_lem desc n (suc f) i nd (j ∷ is) c inside fuel enough small = ground (
    arith,
    c.0,
    c.1,
    inside j,
    free_loop_lem desc n f j (nd - 1) is c.2 (λ k h. omega (arith, inside k h)) (omega arith)
        (omega arith) (omega arith),
  )
