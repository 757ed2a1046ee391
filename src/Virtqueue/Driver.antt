-- ===== src/Virtqueue/Driver.antt =====
-- The calls of virtqueue.c that the driver side makes: it offers buffers and takes used ones back.
use v85x_openamp.Base.{
  ℕ, ◌+◌, ◌-◌, ◌%◌, Bool, true, false, not, Option, none, some, bit_and, update, ltb, ◌==◌,
  if◌then◌else◌,
}
use v85x_openamp.Virtqueue.State.{
  Run, ok, ◌>>=◌, ◌>>◌, Vring, VirtqueueBuf, Virtqueue, Env, Status, success, vring_full,
  vring_align, invld_param, is_success, vqassert, vq_param_chk, vqueue_busy, vqueue_idle, Role, u16,
  chain_end,
}
use v85x_openamp.Virtqueue.Ring.{vq_ring_init, vq_ring_add_buffer, vq_ring_free_chain}

-- The record of `struct vring_alloc_info` that counts here; the addresses are those of `Vring`.
pub record VringAllocInfo : Type 0 where
  pub num_descs : ℕ

-- `virtqueue_create` on a ring and a queue that are not NULL. The fields that it does not set stay.
unfoldable pub virtqueue_create :
    Env
    → Role
    → Bool
    → ℕ
    → VringAllocInfo
    → Bool
    → Bool
    → Virtqueue
    → Vring
    → Status × Virtqueue × Vring
unfolding vq_param_chk
virtqueue_create env role event_idx id ring callback notify vq vr =
    let n = ring.num_descs in
    let checked = vq_param_chk env (n == 0) invld_param success in
    let status = vq_param_chk env (not (bit_and n (n - 1) == 0)) vring_align checked in
    let created = record vq {
      role = role;
      event_idx = event_idx;
      vq_queue_index = id;
      vq_nentries = n;
      vq_free_cnt = n;
      has_callback = callback;
      has_notify = notify;
    } in
    if is_success status then (status, created, vq_ring_init created vr) else (status, vq, vr)

-- `vq_ring_update_avail`
unfoldable pub vq_ring_update_avail : Virtqueue → Vring → ℕ → Virtqueue × Vring
vq_ring_update_avail vq vr desc_idx = (
  record vq { vq_queued_cnt = (vq.vq_queued_cnt + 1) % u16 },
  record vr {
    avail_ring = update vr.avail_ring (bit_and vr.avail_idx (vq.vq_nentries - 1)) desc_idx;
    avail_idx = (vr.avail_idx + 1) % u16;
  },
)

-- What `virtqueue_get_buffer` hands over when it takes an entry of the used ring.
pub record UsedBuffer : Type 0 where
  pub cookie : Option ℕ
  pub len : ℕ
  pub idx : ℕ

module _ (env : Env) where
  -- The part of `virtqueue_add_buffer` behind the parameter checks.
  unfoldable pub enqueue :
      Virtqueue → Vring → (ℕ → VirtqueueBuf) → ℕ → ℕ → Option ℕ → Run (Virtqueue × Vring)
  enqueue vq vr bufs readable writable cookie = do
    let needed = readable + writable
    let head_idx = vq.vq_desc_head_idx
    vqassert env (elim cookie [ none ↦ false | some c ↦ true ])
    vqassert env (ltb head_idx vq.vq_nentries)
    vqassert env (elim (vq.vq_descx head_idx).cookie [ none ↦ true | some c ↦ false ])
    (idx, desc) ← vq_ring_add_buffer env vr.desc head_idx bufs readable writable
    let free_cnt = (vq.vq_free_cnt + u16 - needed % u16) % u16
    vqassert env (if free_cnt == 0 then idx == chain_end else ltb idx vq.vq_nentries)
    let queue = record vq {
      vq_descx = update vq.vq_descx head_idx (record { cookie = cookie; ndescs = needed % u16 });
      vq_desc_head_idx = idx;
      vq_free_cnt = free_cnt;
    }
    ok (vq_ring_update_avail queue (record vr { desc = desc }) head_idx)

  -- The counts of buffers are not negative.
  unfoldable pub virtqueue_add_buffer :
      Virtqueue → Vring → (ℕ → VirtqueueBuf) → ℕ → ℕ → Option ℕ → Run (Status × Virtqueue × Vring)
  virtqueue_add_buffer vq vr bufs readable writable cookie = do
    let needed = readable + writable
    let checked = vq_param_chk env (ltb needed 1) invld_param success
    let status = vq_param_chk env (ltb vq.vq_free_cnt needed) vring_full checked
    busy ← vqueue_busy env vq
    (vq', vr') ←
        (if is_success status then enqueue busy vr bufs readable writable cookie else ok (busy, vr))
    ok (status, vqueue_idle env vq', vr')

  -- `none` is the early return of NULL, with `*len` and `*idx` left alone.
  unfoldable pub virtqueue_get_buffer :
      Virtqueue → Vring → Run (Option UsedBuffer × Virtqueue × Vring)
  virtqueue_get_buffer vq vr = if vq.vq_used_cons_idx == vr.used_idx then ok (none, vq, vr) else do
    busy ← vqueue_busy env vq
    let used_idx = bit_and busy.vq_used_cons_idx (busy.vq_nentries - 1)
    let uep = vr.used_ring used_idx
    let desc_idx = uep.id % u16
    let taken = record busy { vq_used_cons_idx = (busy.vq_used_cons_idx + 1) % u16 }
    (vq', vr') ← vq_ring_free_chain env taken vr desc_idx
    let extra = vq'.vq_descx desc_idx
    let cleared = record vq' {
      vq_descx = update vq'.vq_descx desc_idx (record extra { cookie = none });
    }
    ok (
      some (record { cookie = extra.cookie; len = uep.len; idx = used_idx }),
      vqueue_idle env cleared,
      vr',
    )
