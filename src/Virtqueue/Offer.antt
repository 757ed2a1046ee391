-- ===== src/Virtqueue/Offer.antt =====
-- `virtqueue_add_buffer`: the driver offers a chain of buffers.
use native.Mathlib.Nat.{pow-le-pow_right}
use v85x_openamp.Base.{
  ℕ, suc, ◌+◌, ◌-◌, ◌%◌, ◌^◌, ◌≤◌, ◌≡◌, refl, ap, ◌∙◌, List, [], ◌∷◌, ◌++◌, arith, length,
  length-append, ltb, ◌==◌, if◌then◌else◌, update, bit_and, none, some, Bool, true, ◌||◌,
}
use v85x_openamp.Base.Bits.{bit_and_mask}
use v85x_openamp.Virtqueue.State.{
  ok, Env, Vring, VringDesc, VirtqueueBuf, Virtqueue, success, vq_param_chk, vqassert_holds,
  vqueue_busy, vqueue_idle, u16, u32, chain_end,
}
use v85x_openamp.Virtqueue.Ring.{vq_ring_add_buffer, add_loop, fill_desc}
use v85x_openamp.Virtqueue.Driver.{virtqueue_add_buffer, enqueue, vq_ring_update_avail}
use v85x_openamp.Base.Count.{count, count-append}
use v85x_openamp.Virtqueue.Chains.{LinkedTo, LinkedTo-split, LinkedTo-frame}
use v85x_openamp.Virtqueue.Loops.{
  fill_all, fill_all-next, fill_all_outside, Filled, fill_all-Filled, IsChain-of_Filled,
  add_loop_lem, flags_direct,
}
use v85x_openamp.Virtqueue.Owner.{
  Chain, first, members, ChainAt, Owns, count-members_middle, count-heads_middle, AllAt-insert,
  AllAt-frame, count-heads-le, length_all,
}

-- What a successful offer of the descriptors `is` leaves: they hold the buffers, their head stands in
-- the next slot of the available ring, and all else is as it was.
pub record Offered (env : Env) (k : ℕ) (bufs : ℕ → VirtqueueBuf) (readable needed : ℕ) (is : List ℕ)
    (vq : Virtqueue) (vr : Vring) (vq' : Virtqueue) (vr' : Vring) : Type 0 where
  pub filled : Filled env bufs readable needed vr.desc vr'.desc is 0
  pub others : (i : ℕ) → count i is ≡ 0 → vr'.desc i ≡ vr.desc i
  pub avail_ring : vr'.avail_ring ≡ update vr.avail_ring (vr.avail_idx % 2 ^ k) (first is)
  pub avail_idx : vr'.avail_idx ≡ (vr.avail_idx + 1) % u16
  pub used_ring : vr'.used_ring ≡ vr.used_ring
  pub used_idx : vr'.used_idx ≡ vr.used_idx
  pub cons_idx : vq'.vq_used_cons_idx ≡ vq.vq_used_cons_idx
  pub queued_cnt : vq'.vq_queued_cnt ≡ (vq.vq_queued_cnt + 1) % u16

module _ (env : Env) (k : ℕ) (vq : Virtqueue) (vr : Vring) (x : ℕ) (is rest : List ℕ)
    (pre post : List Chain) (o : Owns k vq vr (x ∷ is ++ rest) (pre ++ post))
    (bufs : ℕ → VirtqueueBuf) (readable writable cookie : ℕ)
    (needed : readable + writable ≡ suc (length is)) where
  abbrev taken : List ℕ
  taken = x ∷ is

  abbrev the_chain : Chain
  the_chain = record {
    cookie = cookie;
    addr = env.virt_to_phys (bufs 0).buf;
    len = (bufs 0).len % u32;
    ids = x ∷ is;
  }

  abbrev desc' : ℕ → VringDesc
  desc' = fill_all env bufs readable (readable + writable) vr.desc taken 0

  cut : (m : ℕ) × LinkedTo vr.desc vq.vq_desc_head_idx taken m × LinkedTo vr.desc m rest chain_end
  cut = LinkedTo-split vr.desc vq.vq_desc_head_idx chain_end taken rest o.linked

  small : length is + length rest + 1 ≤ 2 ^ 15
  small = omega (
    arith,
    length_all o,
    length-append is rest,
    pow-le-pow_right {n = 2} (omega arith) {i = k} {j = 15} (omega (arith, o.width)),
  )

  -- where a descriptor of the offer is held
  place :
      (i : ℕ)
      → count i taken + count i rest + count i (members (pre ++ post))
        ≡ (if ltb i (2 ^ k) then 1 else 0)
  place i = omega (arith, o.partition i, count-append i taken rest)

  abbrev offered_vq : Virtqueue
  offered_vq = record vq {
    vq_descx =
        update vq.vq_descx vq.vq_desc_head_idx
          (record { cookie = some cookie; ndescs = (readable + writable) % u16 });
    vq_desc_head_idx = cut.0;
    vq_free_cnt = (vq.vq_free_cnt + u16 - (readable + writable) % u16) % u16;
    vq_queued_cnt = (vq.vq_queued_cnt + 1) % u16;
  }

  abbrev offered_vr : Vring
  offered_vr = record vr {
    desc = desc';
    avail_ring =
        update vr.avail_ring (bit_and vr.avail_idx (vq.vq_nentries - 1)) vq.vq_desc_head_idx;
    avail_idx = (vr.avail_idx + 1) % u16;
  }

  below_end : 2 ^ k ≤ 2 ^ 15
  below_end = pow-le-pow_right {n = 2} (omega arith) {i = k} {j = 15} (omega (arith, o.width))

  loop :
      vq_ring_add_buffer env vr.desc vq.vq_desc_head_idx bufs readable writable ≡ ok (cut.0, desc')
  unfolding vq_ring_add_buffer
  loop =
      let once = λ (i : ℕ). place i in
      ap (λ r. add_loop env bufs readable (readable + writable) vr.desc vq.vq_desc_head_idx 0 r)
        needed
      ∙ add_loop_lem env bufs readable (readable + writable) vr.desc taken vq.vq_desc_head_idx cut.0
          0 cut.1 (λ i. ground (arith, place i)) (ground (arith, place chain_end, below_end))

  spare_head : (vq.vq_descx x).cookie ≡ none
  spare_head =
      o.spare x
        (ground (arith, place x, count-heads-le vr.desc vq.vq_descx x (pre ++ post) o.chains))

  next_valid : (if length rest == 0 then cut.0 == chain_end else ltb cut.0 (2 ^ k)) ≡ true
  next_valid = go rest cut.2 place
    where
      go :
          (r : List ℕ)
          → LinkedTo vr.desc cut.0 r chain_end
          → ((i : ℕ)
              → count i taken + count i r + count i (members (pre ++ post))
                ≡ (if ltb i (2 ^ k) then 1 else 0))
          → (if length r == 0 then cut.0 == chain_end else ltb cut.0 (2 ^ k)) ≡ true
      go [] l p = ground arith
      go (y ∷ r) l p = ground (arith, p y)

  free_left : (vq.vq_free_cnt + u16 - (readable + writable) % u16) % u16 ≡ length rest
  free_left = omega (arith, o.free_cnt, needed, small, length-append is rest)

  next_checked :
      (if (vq.vq_free_cnt + u16 - (readable + writable) % u16) % u16 == 0
        then cut.0 == chain_end
        else ltb cut.0 vq.vq_nentries)
      ≡ true
  next_checked = rw (free_left, o.entries) next_valid

  enqueue_lem :
      (inuse : Bool)
      → enqueue env (record vq { vq_inuse = inuse }) vr bufs readable writable (some cookie)
        ≡ ok (record offered_vq { vq_inuse = inuse }, offered_vr)
  unfolding enqueue vq_ring_update_avail
  enqueue_lem inuse = ground (
    arith,
    loop,
    o.linked.0,
    o.entries,
    place x,
    spare_head,
    vqassert_holds env true,
    vqassert_holds env (ltb vq.vq_desc_head_idx vq.vq_nentries),
    vqassert_holds env _ next_checked,
  )

  add_lem :
      virtqueue_add_buffer env vq vr bufs readable writable (some cookie)
      ≡ ok (success, offered_vq, offered_vr)
  unfolding virtqueue_add_buffer vq_param_chk vqueue_busy vqueue_idle
  add_lem = ground (
    arith,
    o.idle,
    o.free_cnt,
    needed,
    length-append is rest,
    enqueue_lem (env.debug || vq.vq_inuse),
  )

  in_place : Filled env bufs readable (readable + writable) vr.desc desc' taken 0
  in_place =
      fill_all-Filled env bufs readable (readable + writable) vr.desc taken 0
        (λ i. ground (arith, place i))

  chain_here : ChainAt desc' offered_vq.vq_descx (the_chain)
  unfolding fill_desc
  chain_here = record {
    linked =
        IsChain-of_Filled env bufs readable (readable + writable) vr.desc desc' x is
          vq.vq_desc_head_idx cut.0 0 in_place cut.1 (omega arith);
    direct = ground (arith, in_place.0, flags_direct env bufs readable (readable + writable) 0);
    cookie = ground (arith, o.linked.0);
    ndescs = ground (arith, o.linked.0, needed, small);
    addr = ground (arith, in_place.0);
    len = ground (arith, in_place.0);
  }

  offered_Owns : Owns k offered_vq offered_vr rest (pre ++ the_chain ∷ post)
  offered_Owns = record {
    width = o.width;
    entries = o.entries;
    idle = o.idle;
    linked =
        LinkedTo-frame vr.desc desc' cut.0 chain_end rest
          (λ i h. fill_all-next env bufs readable (readable + writable) vr.desc taken 0 i) cut.2;
    free_cnt = free_left;
    chains = AllAt-insert desc' offered_vq.vq_descx pre (the_chain) post chain_here (
        AllAt-frame vr.desc vq.vq_descx desc' offered_vq.vq_descx (pre ++ post)
          (λ i h. (
            fill_all_outside env bufs readable (readable + writable) vr.desc taken 0 i
                (ground (arith, place i)),
            ground (arith, place i, place x, o.linked.0),
          ))
          o.chains);
    partition = λ i. omega (arith, place i, count-members_middle i pre (the_chain) post);
    spare =
        λ i h. ground (arith, h, o.linked.0, o.spare i, count-heads_middle i pre (the_chain) post);
  }

  -- Where the free chain has enough descriptors, `virtqueue_add_buffer` succeeds, no assertion fails,
  -- the descriptors `x ∷ is` pass from the free chain to a new chain under the cookie, no other
  -- descriptor changes hands, and the chain is offered as `Offered` says.
  pub virtqueue_add_buffer-Owns :
      (vq' : Virtqueue) × (vr' : Vring) × (virtqueue_add_buffer env vq vr bufs readable writable
          (some cookie)
        ≡ ok (success, vq', vr'))
      × Owns k vq' vr' rest (pre ++ the_chain ∷ post)
      × Offered env k bufs readable (readable + writable) (x ∷ is) vq vr vq' vr'
  virtqueue_add_buffer-Owns = (
    offered_vq,
    offered_vr,
    add_lem,
    offered_Owns,
    record {
      filled = in_place;
      others = λ i h. fill_all_outside env bufs readable (readable + writable) vr.desc taken 0 i h;
      avail_ring = rw (o.entries, bit_and_mask k vr.avail_idx, o.linked.0);
      avail_idx = refl;
      used_ring = refl;
      used_idx = refl;
      cons_idx = refl;
      queued_cnt = refl;
    },
  )
