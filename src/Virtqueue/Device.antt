-- ===== src/Virtqueue/Device.antt =====
-- The calls of virtqueue.c that the device side makes: it takes offered buffers and reports them
-- used.
use v85x_openamp.Base.{
  ℕ, ◌+◌, ◌-◌, ◌%◌, Option, none, some, bit_and, update, leb, ◌==◌, if◌then◌else◌,
}
use v85x_openamp.Virtqueue.State.{
  Run, ok, ◌>>=◌, Vring, Virtqueue, Env, Status, success, vring_no_buff, vqueue_busy, vqueue_idle,
  u16,
}

-- What `virtqueue_get_available_buffer` hands over. The buffer is NULL where its translation is.
pub record AvailableBuffer : Type 0 where
  pub buffer : ℕ
  pub avail_idx : ℕ
  pub len : ℕ

unfoldable pub virtqueue_get_buffer_length : Vring → ℕ → ℕ
virtqueue_get_buffer_length vr idx = (vr.desc idx).len

module _ (env : Env) where
  unfoldable pub virtqueue_get_buffer_addr : Vring → ℕ → ℕ
  virtqueue_get_buffer_addr vr idx = env.phys_to_virt (vr.desc idx).addr

  -- `none` is the early return of NULL, with `*avail_idx` and `*len` left alone.
  unfoldable pub virtqueue_get_available_buffer :
      Virtqueue → Vring → Run (Option AvailableBuffer × Virtqueue)
  unfolding virtqueue_get_buffer_addr virtqueue_get_buffer_length
  virtqueue_get_available_buffer vq vr =
      if vq.vq_available_idx == vr.avail_idx then ok (none, vq) else do
        busy ← vqueue_busy env vq
        let head_idx = bit_and busy.vq_available_idx (busy.vq_nentries - 1)
        let avail_idx = vr.avail_ring head_idx
        let taken = record busy { vq_available_idx = (busy.vq_available_idx + 1) % u16 }
        ok (
          some (record {
            buffer = virtqueue_get_buffer_addr vr avail_idx;
            avail_idx = avail_idx;
            len = virtqueue_get_buffer_length vr avail_idx;
          }),
          vqueue_idle env taken,
        )

  unfoldable pub virtqueue_add_consumed_buffer :
      Virtqueue → Vring → ℕ → ℕ → Run (Status × Virtqueue × Vring)
  virtqueue_add_consumed_buffer vq vr head_idx len =
      if leb vq.vq_nentries head_idx then ok (vring_no_buff, vq, vr) else do
        busy ← vqueue_busy env vq
        let used_idx = bit_and vr.used_idx (busy.vq_nentries - 1)
        ok (
          success,
          vqueue_idle env (record busy { vq_queued_cnt = (busy.vq_queued_cnt + 1) % u16 }),
          record vr {
            used_ring = update vr.used_ring used_idx (record { id = head_idx; len = len });
            used_idx = (vr.used_idx + 1) % u16;
          },
        )

  -- The length of the next available buffer, 0 where there is none.
  unfoldable pub virtqueue_get_desc_size : Virtqueue → Vring → Run (ℕ × Virtqueue)
  virtqueue_get_desc_size vq vr = if vq.vq_available_idx == vr.avail_idx then ok (0, vq) else do
    busy ← vqueue_busy env vq
    let head_idx = bit_and busy.vq_available_idx (busy.vq_nentries - 1)
    ok ((vr.desc (vr.avail_ring head_idx)).len, vqueue_idle env busy)
