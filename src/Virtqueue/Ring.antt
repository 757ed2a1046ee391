-- ===== src/Virtqueue/Ring.antt =====
-- The helpers of virtqueue.c that lay out, link and walk descriptors.
use v85x_openamp.Base.{
  ℕ, zero, suc, ◌+◌, ◌-◌, ◌%◌, true, false, not, ◌||◌, bit_and, bit_or, update, ltb, leb, ◌==◌,
  if◌then◌else◌,
}
use v85x_openamp.Virtqueue.State.{
  Run, ok, out_of_fuel, ◌>>=◌, ◌>>◌, VringDesc, Vring, VirtqueueBuf, Virtqueue, Env, vqassert,
  is_driver, u16, u32, chain_end, desc_f_next, desc_f_write, desc_f_indirect,
}

-- The loop of `vq_ring_init`: `rounds` descriptors from `i` on are linked, the one behind them ends
-- the chain.
unfoldable pub link_free : (ℕ → VringDesc) → ℕ → ℕ → ℕ → VringDesc
link_free desc i zero = update desc i (record (desc i) { next = chain_end })
link_free desc i (suc rounds) =
    link_free (update desc i (record (desc i) { next = (i + 1) % u16 })) (i + 1) rounds

-- `vq_ring_init`, where `vring_init` has pointed the tables into the ring's memory.
unfoldable pub vq_ring_init : Virtqueue → Vring → Vring
vq_ring_init vq vr =
    let size = vq.vq_nentries in
    record vr {
      num = size;
      desc = if is_driver vq.role then link_free vr.desc 0 (size - 1) else vr.desc;
    }

-- the flags of buffer `i` of `needed`, the first `readable` of which the device reads
unfoldable pub buffer_flags : ℕ → ℕ → ℕ → ℕ
buffer_flags readable needed i =
    bit_or (if ltb i (needed - 1) then desc_f_next else 0)
      (if leb readable i then desc_f_write else 0)

module _ (env : Env) where
  unfoldable pub fill_desc : (ℕ → VirtqueueBuf) → ℕ → ℕ → ℕ → VringDesc → VringDesc
  unfolding buffer_flags
  fill_desc bufs readable needed i d = record d {
    addr = env.virt_to_phys (bufs i).buf;
    len = (bufs i).len % u32;
    flags = buffer_flags readable needed i;
  }

  -- The loop of `vq_ring_add_buffer` from buffer `i` on, with `rounds` buffers to go.
  unfoldable pub add_loop :
      (ℕ → VirtqueueBuf) → ℕ → ℕ → (ℕ → VringDesc) → ℕ → ℕ → ℕ → Run (ℕ × (ℕ → VringDesc))
  add_loop bufs readable needed desc idx i zero = ok (idx, desc)
  add_loop bufs readable needed desc idx i (suc rounds) =
      vqassert env (not (idx == chain_end))
      >> add_loop bufs readable needed
          (update desc idx (fill_desc bufs readable needed i (desc idx))) (desc idx).next (i + 1)
          rounds

  unfoldable pub vq_ring_add_buffer :
      (ℕ → VringDesc) → ℕ → (ℕ → VirtqueueBuf) → ℕ → ℕ → Run (ℕ × (ℕ → VringDesc))
  vq_ring_add_buffer desc head_idx bufs readable writable =
      add_loop bufs readable (readable + writable) desc head_idx 0 (readable + writable)

  -- The loop of `vq_ring_free_chain` from the descriptor `dp` on: the last one, and `ndescs` less
  -- the links that it followed.
  unfoldable pub free_loop : ℕ → (ℕ → VringDesc) → ℕ → ℕ → ℕ → Run (ℕ × ℕ)
  free_loop zero desc nentries dp ndescs = out_of_fuel
  free_loop (suc fuel) desc nentries dp ndescs = elim (bit_and (desc dp).flags desc_f_next == 0) [
    | true ↦ ok (dp, ndescs)
    | false ↦
        vqassert env (ltb (desc dp).next nentries)
        >> free_loop fuel desc nentries (desc dp).next ((ndescs + u16 - 1) % u16)
  ]

  -- `if ((dp->flags & VRING_DESC_F_INDIRECT) == 0)`
  unfoldable pub walk_chain : (ℕ → VringDesc) → ℕ → ℕ → ℕ → Run (ℕ × ℕ)
  walk_chain desc nentries dp ndescs =
      if bit_and (desc dp).flags desc_f_indirect == 0
      then free_loop (nentries + 1) desc nentries dp ndescs
      else ok (dp, ndescs)

  -- The walk has `nentries + 1` rounds: a chain links each descriptor once at most.
  unfoldable pub vq_ring_free_chain : Virtqueue → Vring → ℕ → Run (Virtqueue × Vring)
  vq_ring_free_chain vq vr desc_idx = do
    vqassert env (ltb desc_idx vq.vq_nentries)
    vqassert env (not (vq.vq_free_cnt == 0) || (vq.vq_desc_head_idx == chain_end))
    let extra = vq.vq_descx desc_idx
    (dp, ndescs) ← walk_chain vr.desc vq.vq_nentries desc_idx ((extra.ndescs + u16 - 1) % u16)
    vqassert env (ndescs == 0)
    ok (
      record vq {
        vq_free_cnt = (vq.vq_free_cnt + extra.ndescs) % u16;
        vq_descx = update vq.vq_descx desc_idx (record extra { ndescs = ndescs });
        vq_desc_head_idx = desc_idx;
      },
      record vr { desc = update vr.desc dp (record (vr.desc dp) { next = vq.vq_desc_head_idx }) },
    )
