-- ===== src/Virtqueue/Create.antt =====
-- `virtqueue_create`: what it accepts, and the free chain that it lays out.
use native.Mathlib.Nat.{pow-le-pow_right, one-le-pow}
use v85x_openamp.Base.{
  ℕ, zero, suc, ◌+◌, ◌-◌, ◌%◌, ◌^◌, ◌≤◌, ◌<◌, ◌≡◌, refl, sym, ap, ◌∙◌, List, [], ◌∷◌, arith, length,
  ltb, leb, ◌==◌, if◌then◌else◌, update, bit_and, none, Bool, true, false, ◌&&◌,
}
use mathlib.Core.Path.{subst}
use v85x_openamp.Base.Bits.{IsPowerOfTwo, bit_and-pred_power, IsPowerOfTwo-of_and-pred}
use v85x_openamp.Virtqueue.State.{
  Env, Vring, VringDesc, Virtqueue, success, invld_param, vring_align, Role, driver, u16, chain_end,
}
use v85x_openamp.Virtqueue.Ring.{link_free, vq_ring_init}
use v85x_openamp.Virtqueue.Driver.{virtqueue_create}
use v85x_openamp.Base.Count.{count}
use v85x_openamp.Virtqueue.Chains.{LinkedTo}
use v85x_openamp.Virtqueue.Owner.{Owns}

-- the `r` indices from `i` on
abbrev pub upto : ℕ → ℕ → List ℕ
upto i zero = []
upto i (suc r) = i ∷ upto (i + 1) r

length-upto : (i r : ℕ) → length (upto i r) ≡ r
length-upto i zero = refl
length-upto i (suc r) = ap suc (length-upto (i + 1) r)

count-upto : (j i r : ℕ) → count j (upto i r) ≡ (if leb i j && ltb j (i + r) then 1 else 0)
count-upto j i zero = ground arith
count-upto j i (suc r) = ground (arith, count-upto j (i + 1) r)

link_free_before : (desc : ℕ → VringDesc) (i r j : ℕ) → j < i → link_free desc i r j ≡ desc j
unfolding link_free
link_free_before desc i zero j h = ground arith
link_free_before desc i (suc r) j h =
    link_free_before (update desc i (record (desc i) { next = (i + 1) % u16 })) (i + 1) r j
      (omega arith)
    ∙ ground arith

-- The loop of `vq_ring_init` makes one chain of all descriptors.
LinkedTo-link_free :
    (desc : ℕ → VringDesc) (i r : ℕ)
    → i + r < u16
    → LinkedTo (link_free desc i r) i (upto i (suc r)) chain_end
unfolding link_free
LinkedTo-link_free desc i zero h = (refl, ground arith)
LinkedTo-link_free desc i (suc r) h =
    let desc' = update desc i (record (desc i) { next = (i + 1) % u16 }) in
    (
      refl,
      (
        ground (arith, link_free_before desc' (i + 1) r i),
        (LinkedTo-link_free desc' (i + 1) r (omega arith)).1,
      ),
    )

-- A queue as `virtqueue_allocate` returns it: zeroed memory.
pub record IsZeroed (vq : Virtqueue) : Type 0 where
  pub free_cnt : vq.vq_free_cnt ≡ 0
  pub queued_cnt : vq.vq_queued_cnt ≡ 0
  pub head_idx : vq.vq_desc_head_idx ≡ 0
  pub cons_idx : vq.vq_used_cons_idx ≡ 0
  pub available_idx : vq.vq_available_idx ≡ 0
  pub inuse : vq.vq_inuse ≡ false
  pub descx : (i : ℕ) → (vq.vq_descx i).cookie ≡ none

-- On the driver side a zeroed queue over `2 ^ k` descriptors is created with success in either build,
-- and owns every descriptor in its free chain, in the order of the table; the indices of the rings stay.
pub virtqueue_create-Owns :
    (env : Env) (event_idx : Bool) (id k : ℕ) (callback notify : Bool) (vq : Virtqueue) (vr : Vring)
    → k < 16
    → IsZeroed vq
    → (vq' : Virtqueue) × (vr' : Vring) × (virtqueue_create env driver event_idx id
          (record { num_descs = 2 ^ k })
          callback
          notify
          vq
          vr
        ≡ (success, vq', vr'))
      × Owns k vq' vr' (upto 0 (2 ^ k)) []
      × (vq'.vq_used_cons_idx ≡ 0)
      × (vr'.avail_idx ≡ vr.avail_idx)
      × (vr'.used_idx ≡ vr.used_idx)
      × (vr'.num ≡ 2 ^ k)
unfolding virtqueue_create vq_ring_init
virtqueue_create-Owns env event_idx id k callback notify vq vr width z =
    let created = record vq {
      role = driver;
      event_idx = event_idx;
      vq_queue_index = id;
      vq_nentries = 2 ^ k;
      vq_free_cnt = 2 ^ k;
      has_callback = callback;
      has_notify = notify;
    } in
    let below_end : 2 ^ k ≤ 2 ^ 15 =
      pow-le-pow_right {n = 2} (omega arith) {i = k} {j = 15} (omega arith) in
    let all : suc (2 ^ k - 1) ≡ 2 ^ k = omega (arith, one-le-pow k 2) in
    (
      created,
      vq_ring_init created vr,
      ground (arith, one-le-pow k 2, bit_and-pred_power k),
      record {
        width = width;
        entries = refl;
        idle = z.inuse;
        linked =
            subst
              (λ n.
                LinkedTo (link_free vr.desc 0 (2 ^ k - 1)) vq.vq_desc_head_idx (upto 0 n) chain_end)
              all
              (rw (z.head_idx)
                (LinkedTo-link_free vr.desc 0 (2 ^ k - 1) (omega (arith, below_end))));
        free_cnt = sym (length-upto 0 (2 ^ k));
        chains = tt;
        partition = λ i. ground (arith, count-upto i 0 (2 ^ k));
        spare = λ i h. z.descx i;
      },
      z.cons_idx,
      ground arith,
      ground arith,
      refl,
    )

-- With the checks of VQUEUE_DEBUG a size of zero and one that is no power of two are refused, each with
-- its error, and the queue and the ring stay as they were.
pub virtqueue_create_refuses :
    (env : Env) (role : Role) (event_idx : Bool) (id n : ℕ) (callback notify : Bool)
    (vq : Virtqueue) (vr : Vring)
    → env.debug ≡ true
    → ¬ IsPowerOfTwo n
    → virtqueue_create env role event_idx id (record { num_descs = n }) callback notify vq vr
      ≡ ((if n == 0 then invld_param else vring_align), vq, vr)
unfolding virtqueue_create
virtqueue_create_refuses env role event_idx id n callback notify vq vr debug bad =
    ground (arith, λ (h : 0 < n) (e : bit_and n (n - 1) ≡ 0). bad (IsPowerOfTwo-of_and-pred n h e))
