-- ===== src/RpmsgVirtio/Buffers.antt =====
-- How rpmsg_virtio.c takes buffers from its two queues, gives them back and queues them.
use v85x_openamp.Base.{
  ℕ, ◌-◌, Bool, true, false, Option, none, some, [], ◌∷◌, if◌then◌else◌, ◌==◌, update,
}
use v85x_openamp.Virtqueue.State.{
  Run, ok, assert_failed, ◌>>=◌, ◌>>◌, Env, VirtqueueBuf, Role, driver, device, Status, is_success,
}
use v85x_openamp.Virtqueue.Driver.{virtqueue_add_buffer, virtqueue_get_buffer, UsedBuffer}
use v85x_openamp.Virtqueue.Device.{
  AvailableBuffer, virtqueue_get_available_buffer, virtqueue_add_consumed_buffer,
  virtqueue_get_buffer_length,
}
use v85x_openamp.Virtqueue.Events.{virtqueue_kick}
use v85x_openamp.RpmsgVirtio.State.{
  hdr_size, RpmsgVirtioDevice, rpmsg_virtio_shm_pool_get_buffer, held_inc, buf_index,
  rpmsg_virtio_buf_held_dec_test,
}

-- A buffer with its length and its index.
pub record TxBuffer : Type 0 where
  pub data_ : ℕ
  pub len : ℕ
  pub idx : ℕ

-- `metal_assert`, in every build
abbrev pub rpmsg_assert : Bool → Run (Unit {0})
rpmsg_assert true = ok tt
rpmsg_assert false = assert_failed

-- `&vqbuf`, an array of one buffer
abbrev pub one_buf : ℕ → ℕ → ℕ → VirtqueueBuf
one_buf buffer len i = record { buf = buffer; len = len }

-- What `virtqueue_get_buffer` and `virtqueue_get_available_buffer` return, where it is not NULL.
abbrev pub used_data : Option UsedBuffer → Option TxBuffer
used_data none = none
used_data (some u) = elim u.cookie [
  | none ↦ none
  | some c ↦ some (record { data_ = c; len = u.len; idx = u.idx })
]

abbrev pub available_data : Option AvailableBuffer → Option TxBuffer
available_data none = none
available_data (some a) =
    if a.buffer == 0
    then none
    else some (record { data_ = a.buffer; len = a.len; idx = a.avail_idx })

abbrev pub recycled_len : Role → RpmsgVirtioDevice → ℕ → ℕ
recycled_len driver rvdev idx = rvdev.h2r_buf_size
recycled_len device rvdev idx = virtqueue_get_buffer_length rvdev.svring idx

-- `rxbuf` is the address of the payload; the header stands before it.
unfoldable pub rpmsg_virtio_hold_rx_buffer : RpmsgVirtioDevice → ℕ → RpmsgVirtioDevice
rpmsg_virtio_hold_rx_buffer rvdev rxbuf =
    let b = rxbuf - hdr_size in record rvdev { hdr = update rvdev.hdr b (held_inc (rvdev.hdr b)) }

module _ (env : Env) where
  unfoldable pub return_as : Role → RpmsgVirtioDevice → ℕ → ℕ → ℕ → Run RpmsgVirtioDevice
  return_as driver rvdev buffer len idx = do
    (ret, vq, vr) ←
        virtqueue_add_buffer env rvdev.rvq rvdev.rvring (one_buf buffer len) 0 1 (some buffer)
    rpmsg_assert (is_success ret)
    ok (record rvdev { rvq = vq; rvring = vr })
  return_as device rvdev buffer len idx = do
    (ret, vq, vr) ← virtqueue_add_consumed_buffer env rvdev.rvq rvdev.rvring idx len
    rpmsg_assert (is_success ret)
    ok (record rvdev { rvq = vq; rvring = vr })

  unfoldable pub rpmsg_virtio_return_buffer : RpmsgVirtioDevice → ℕ → ℕ → ℕ → Run RpmsgVirtioDevice
  unfolding return_as
  rpmsg_virtio_return_buffer rvdev buffer len idx = return_as rvdev.role rvdev buffer len idx

  unfoldable pub enqueue_as :
      Role → RpmsgVirtioDevice → ℕ → ℕ → ℕ → Run (Status × RpmsgVirtioDevice)
  enqueue_as driver rvdev buffer len idx = do
    (ret, vq, vr) ←
        virtqueue_add_buffer env rvdev.svq rvdev.svring (one_buf buffer len) 1 0 (some buffer)
    ok (ret, record rvdev { svq = vq; svring = vr })
  enqueue_as device rvdev buffer len idx = do
    (ret, vq, vr) ← virtqueue_add_consumed_buffer env rvdev.svq rvdev.svring idx len
    ok (ret, record rvdev { svq = vq; svring = vr })

  unfoldable pub rpmsg_virtio_enqueue_buffer :
      RpmsgVirtioDevice → ℕ → ℕ → ℕ → Run (Status × RpmsgVirtioDevice)
  unfolding enqueue_as
  rpmsg_virtio_enqueue_buffer rvdev buffer len idx = enqueue_as rvdev.role rvdev buffer len idx

  -- the pool, for a driver that has no used buffer but a free descriptor
  unfoldable pub from_pool : RpmsgVirtioDevice → Option TxBuffer × RpmsgVirtioDevice
  from_pool rvdev =
      let (data_, pool) = rpmsg_virtio_shm_pool_get_buffer rvdev.shpool rvdev.h2r_buf_size in
      (
        elim data_ [
          | none ↦ none
          | some b ↦ some (record { data_ = b; len = rvdev.h2r_buf_size; idx = 0 })
        ],
        record rvdev { shpool = pool },
      )

  unfoldable pub fresh_tx : Role → RpmsgVirtioDevice → Run (Option TxBuffer × RpmsgVirtioDevice)
  unfolding from_pool
  fresh_tx driver rvdev = do
    (got, vq, vr) ← virtqueue_get_buffer env rvdev.svq rvdev.svring
    let rvdev' = record rvdev { svq = vq; svring = vr }
    ok (elim (used_data got) [
      | some b ↦ (some b, rvdev')
      | none ↦ if vq.vq_free_cnt == 0 then (none, rvdev') else from_pool rvdev'
    ])
  fresh_tx device rvdev = do
    (got, vq) ← virtqueue_get_available_buffer env rvdev.svq rvdev.svring
    ok (available_data got, record rvdev { svq = vq })

  unfoldable pub rpmsg_virtio_get_tx_buffer :
      RpmsgVirtioDevice → Run (Option TxBuffer × RpmsgVirtioDevice)
  unfolding fresh_tx virtqueue_get_buffer_length
  rpmsg_virtio_get_tx_buffer rvdev = elim rvdev.reclaimer [
    | (b, idx) ∷ rest ↦ ok (
      some (record { data_ = b; len = recycled_len rvdev.role rvdev idx; idx = idx }),
      record rvdev { reclaimer = rest },
    )
    | [] ↦ fresh_tx rvdev.role rvdev
  ]

  unfoldable pub rx_as : Role → RpmsgVirtioDevice → Run (Option TxBuffer × RpmsgVirtioDevice)
  rx_as driver rvdev = do
    (got, vq, vr) ← virtqueue_get_buffer env rvdev.rvq rvdev.rvring
    ok (used_data got, record rvdev { rvq = vq; rvring = vr })
  rx_as device rvdev = do
    (got, vq) ← virtqueue_get_available_buffer env rvdev.rvq rvdev.rvring
    ok (available_data got, record rvdev { rvq = vq })

  unfoldable pub rpmsg_virtio_get_rx_buffer :
      RpmsgVirtioDevice → Run (Option TxBuffer × RpmsgVirtioDevice)
  unfolding rx_as
  rpmsg_virtio_get_rx_buffer rvdev = rx_as rvdev.role rvdev

  -- The first part says whether the other side is notified.
  unfoldable pub rpmsg_virtio_release_rx_buffer_nolock :
      RpmsgVirtioDevice → ℕ → Run (Bool × RpmsgVirtioDevice)
  unfolding rpmsg_virtio_return_buffer
  rpmsg_virtio_release_rx_buffer_nolock rvdev b = do
    let idx = buf_index (rvdev.hdr b)
    rvdev' ← rpmsg_virtio_return_buffer rvdev b (virtqueue_get_buffer_length rvdev.rvring idx) idx
    (notified, vq) ← virtqueue_kick env rvdev'.rvq rvdev'.rvring
    ok (notified, record rvdev' { rvq = vq })

  unfoldable pub rpmsg_virtio_release_rx_buffer :
      RpmsgVirtioDevice → ℕ → Run (Bool × RpmsgVirtioDevice)
  unfolding rpmsg_virtio_release_rx_buffer_nolock
  rpmsg_virtio_release_rx_buffer rvdev rxbuf =
      let b = rxbuf - hdr_size in
      let (last, h) = rpmsg_virtio_buf_held_dec_test (rvdev.hdr b) in
      let rvdev' = record rvdev { hdr = update rvdev.hdr b h } in
      if last then rpmsg_virtio_release_rx_buffer_nolock rvdev' b else ok (false, rvdev')
