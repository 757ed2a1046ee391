-- ===== src/Virtqueue/Reclaim.antt =====
-- `virtqueue_get_buffer`: the driver takes back a chain that the device has used.
use native.Mathlib.Nat.{pow-le-pow_right}
use v85x_openamp.Base.{
  ℕ, ◌+◌, ◌-◌, ◌%◌, ◌^◌, ◌≤◌, ◌≡◌, ◌≢◌, refl, List, [], ◌∷◌, ◌++◌, arith, length, length-append,
  ltb, ◌==◌, if◌then◌else◌, update, bit_and, none, some, Bool, true, not, ◌||◌,
}
use v85x_openamp.Base.Bits.{bit_and_mask}
use v85x_openamp.Virtqueue.State.{
  ok, Env, Vring, Virtqueue, vqassert_holds, vqueue_busy, vqueue_idle, u16, chain_end,
}
use v85x_openamp.Virtqueue.Ring.{vq_ring_free_chain, walk_chain}
use v85x_openamp.Virtqueue.Driver.{virtqueue_get_buffer}
use v85x_openamp.Base.Count.{count, count-append}
use v85x_openamp.Virtqueue.Chains.{
  LinkedTo, last, LinkedTo-append, LinkedTo-frame, LinkedTo-relink, count-last,
}
use v85x_openamp.Virtqueue.Loops.{free_loop_lem}
use v85x_openamp.Virtqueue.Owner.{
  Chain, members, ChainAt, AllAt, Owns, count-members_middle, count-heads_middle,
  length-members_middle, AllAt-remove, AllAt-frame, length_all,
}

-- What taking back a used entry leaves as it was, and where the consumer's index stands.
pub record Reclaimed (vq : Virtqueue) (vr : Vring) (vq' : Virtqueue) (vr' : Vring) : Type 0 where
  pub cons_idx : vq'.vq_used_cons_idx ≡ (vq.vq_used_cons_idx + 1) % u16
  pub avail_ring : vr'.avail_ring ≡ vr.avail_ring
  pub avail_idx : vr'.avail_idx ≡ vr.avail_idx
  pub used_ring : vr'.used_ring ≡ vr.used_ring
  pub used_idx : vr'.used_idx ≡ vr.used_idx
  pub queued_cnt : vq'.vq_queued_cnt ≡ vq.vq_queued_cnt

module _ (env : Env) (k : ℕ) (vq : Virtqueue) (vr : Vring) (cookie addr len x : ℕ)
    (is free : List ℕ) (pre post : List Chain)
    (o : Owns k vq vr free
      (pre ++ record { cookie = cookie; addr = addr; len = len; ids = x ∷ is } ∷ post)) where
  abbrev chain : Chain
  chain = record { cookie = cookie; addr = addr; len = len; ids = x ∷ is }

  place :
      (i : ℕ)
      → count i free + count i (x ∷ is) + count i (members (pre ++ post))
        ≡ (if ltb i (2 ^ k) then 1 else 0)
  place i = omega (arith, o.partition i, count-members_middle i pre chain post)

  parts : ChainAt vr.desc vq.vq_descx chain × AllAt vr.desc vq.vq_descx (pre ++ post)
  parts = AllAt-remove vr.desc vq.vq_descx pre chain post o.chains

  below_end : 2 ^ k ≤ 2 ^ 15
  below_end = pow-le-pow_right {n = 2} (omega arith) {i = k} {j = 15} (omega (arith, o.width))

  room : length free + length is + 1 ≤ 2 ^ k
  room = omega (arith, length_all o, length-members_middle pre chain post)

  end_valid : (not (vq.vq_free_cnt == 0) || (vq.vq_desc_head_idx == chain_end)) ≡ true
  end_valid = go free o.linked o.free_cnt
    where
      go :
          (r : List ℕ)
          → LinkedTo vr.desc vq.vq_desc_head_idx r chain_end
          → vq.vq_free_cnt ≡ length r
          → (not (vq.vq_free_cnt == 0) || (vq.vq_desc_head_idx == chain_end)) ≡ true
      go [] l e = ground arith
      go (y ∷ r) l e = ground arith

  walk :
      walk_chain env vr.desc vq.vq_nentries x (((vq.vq_descx x).ndescs + u16 - 1) % u16)
      ≡ ok (last x is, 0)
  unfolding walk_chain
  walk = ground (
    arith,
    parts.0.direct,
    parts.0.ndescs,
    o.entries,
    below_end,
    room,
    free_loop_lem env vr.desc (2 ^ k) (2 ^ k + 1) x (length is) is parts.0.linked
        (λ j h. ground (arith, place j)) (omega (arith, room)) (omega arith)
        (omega (arith, room, below_end)),
  )

  abbrev freed_vq : Virtqueue
  freed_vq = record vq {
    vq_free_cnt = (vq.vq_free_cnt + (vq.vq_descx x).ndescs) % u16;
    vq_descx = update vq.vq_descx x (record (vq.vq_descx x) { ndescs = 0 });
    vq_desc_head_idx = x;
  }

  abbrev freed_vr : Vring
  freed_vr = record vr {
    desc = update vr.desc (last x is) (record (vr.desc (last x is)) { next = vq.vq_desc_head_idx });
  }

  free_chain_lem :
      (inuse : Bool) (cons : ℕ)
      → vq_ring_free_chain env (record vq { vq_inuse = inuse; vq_used_cons_idx = cons }) vr x
        ≡ ok (record freed_vq { vq_inuse = inuse; vq_used_cons_idx = cons }, freed_vr)
  unfolding vq_ring_free_chain
  free_chain_lem inuse cons = ground (
    arith,
    walk,
    o.entries,
    place x,
    vqassert_holds env true,
    vqassert_holds env (ltb x vq.vq_nentries),
    vqassert_holds env _ end_valid,
  )

  module _ (ne : vq.vq_used_cons_idx ≢ vr.used_idx)
      (reported : (vr.used_ring (vq.vq_used_cons_idx % 2 ^ k)).id ≡ x) where
    abbrev slot : ℕ
    slot = bit_and vq.vq_used_cons_idx (vq.vq_nentries - 1)

    abbrev entry : ℕ
    entry = (vr.used_ring slot).id % u16

    slot_lem : slot ≡ vq.vq_used_cons_idx % 2 ^ k
    slot_lem = rw o.entries (bit_and_mask k vq.vq_used_cons_idx)

    entry_lem : entry ≡ x
    entry_lem = ground (arith, slot_lem, reported, place x, below_end)

    abbrev taken_vq : Virtqueue
    taken_vq = record freed_vq {
      vq_used_cons_idx = (vq.vq_used_cons_idx + 1) % u16;
      vq_descx =
          update freed_vq.vq_descx entry (record (freed_vq.vq_descx entry) { cookie = none });
    }

    get_lem :
        virtqueue_get_buffer env vq vr
        ≡ ok (
          some (record { cookie = some cookie; len = (vr.used_ring slot).len; idx = slot }),
          taken_vq,
          freed_vr,
        )
    unfolding virtqueue_get_buffer vqueue_busy vqueue_idle
    get_lem = ground (
      arith,
      o.idle,
      ne,
      entry_lem,
      parts.0.cookie,
      vqassert_holds env true,
      free_chain_lem (env.debug || vq.vq_inuse) ((vq.vq_used_cons_idx + 1) % u16),
    )

    taken_Owns : Owns k taken_vq freed_vr (x ∷ is ++ free) (pre ++ post)
    taken_Owns = record {
      width = o.width;
      entries = o.entries;
      idle = o.idle;
      linked =
          LinkedTo-append freed_vr.desc x vq.vq_desc_head_idx chain_end (x ∷ is) free
            (LinkedTo-relink vr.desc vq.vq_desc_head_idx x is parts.0.linked
              (λ j. ground (arith, place j)))
            (LinkedTo-frame vr.desc freed_vr.desc vq.vq_desc_head_idx chain_end free
              (λ i h. ground (arith, place i, count-last x is)) o.linked);
      free_cnt = omega (arith, parts.0.ndescs, o.free_cnt, length-append is free, room, below_end);
      chains =
          AllAt-frame vr.desc vq.vq_descx freed_vr.desc taken_vq.vq_descx (pre ++ post)
            (λ i h. (ground (arith, place i, count-last x is), ground (arith, place i, entry_lem)))
            parts.1;
      partition = λ i. omega (arith, place i, count-append i (x ∷ is) free);
      spare = λ i h. ground (arith, h, entry_lem, o.spare i, count-heads_middle i pre chain post);
    }

    -- Where the next used entry names the head of the chain `x ∷ is`, `virtqueue_get_buffer` returns the
    -- cookie under which it was offered and the length that the device wrote, no assertion fails, its
    -- walk ends, and exactly the descriptors of the chain pass back to the free chain.
    pub virtqueue_get_buffer-Owns :
        (vq' : Virtqueue) × (vr' : Vring) × (virtqueue_get_buffer env vq vr
          ≡ ok (
            some (record {
              cookie = some cookie;
              len = (vr.used_ring (vq.vq_used_cons_idx % 2 ^ k)).len;
              idx = vq.vq_used_cons_idx % 2 ^ k;
            }),
            vq',
            vr',
          ))
        × Owns k vq' vr' (x ∷ is ++ free) (pre ++ post)
        × Reclaimed vq vr vq' vr'
    virtqueue_get_buffer-Owns = (
      taken_vq,
      freed_vr,
      rw (← slot_lem) get_lem,
      taken_Owns,
      record {
        cons_idx = refl;
        avail_ring = refl;
        avail_idx = refl;
        used_ring = refl;
        used_idx = refl;
        queued_cnt = refl;
      },
    )
