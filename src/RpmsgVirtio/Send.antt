-- ===== src/RpmsgVirtio/Send.antt =====
-- Sending: the wait for a buffer, the header, and what becomes of a buffer that is not sent.
use v85x_openamp.Base.{
  ℕ, zero, suc, ◌+◌, ◌-◌, ◌%◌, Bool, not, Option, none, some, [], ◌∷◌, ◌++◌, if◌then◌else◌, ltb,
  leb, update, ℤ, pos,
}
use v85x_openamp.Virtqueue.State.{
  Run, ok, out_of_fuel, ◌>>=◌, ◌>>◌, Env, Role, driver, device, is_success, u16, u32,
}
use v85x_openamp.Virtqueue.Device.{virtqueue_get_buffer_length, virtqueue_get_desc_size}
use v85x_openamp.Virtqueue.Events.{virtqueue_kick}
use v85x_openamp.Rpmsg.State.{rpmsg_err_no_buff, rpmsg_success}
use v85x_openamp.RpmsgVirtio.State.{
  RpmsgHdr, hdr_size, RpmsgVirtioDevice, held_inc, buf_index, rpmsg_virtio_buf_held_dec_test,
}
use v85x_openamp.RpmsgVirtio.Buffers.{
  TxBuffer, rpmsg_assert, rpmsg_virtio_get_tx_buffer, rpmsg_virtio_enqueue_buffer,
}

-- What `rpmsg_virtio_notify_wait` reports: no callback or one that is not supported, success, or
-- another error of the callback.
pub data Waited : Type 0 where
  not_supported notified other : Waited

-- the loop of `rpmsg_virtio_get_tx_payload_buffer` starts with RPMSG_TICK_COUNT in units of
-- RPMSG_TICKS_PER_INTERVAL
abbrev pub tick_count : Bool → ℕ
tick_count wait = if wait then 15000 else 0

-- The index goes to the low half of `reserved` and one reference to the high half; the address is
-- that of the payload.
unfoldable pub prepare_tx : Option TxBuffer × RpmsgVirtioDevice → Option (ℕ × ℕ) × RpmsgVirtioDevice
prepare_tx (none, rvdev) = (none, rvdev)
prepare_tx (some b, rvdev) = (
  some (b.data_ + hdr_size, (b.len + u32 - hdr_size) % u32),
  record rvdev {
    hdr = update rvdev.hdr b.data_ (held_inc (record (rvdev.hdr b.data_) { reserved = b.idx }));
  },
)

abbrev pub send_len : Role → RpmsgVirtioDevice → ℕ → ℕ
send_len driver rvdev idx = rvdev.h2r_buf_size
send_len device rvdev idx = virtqueue_get_buffer_length rvdev.svring idx

-- `overlaid` is what the node of the reclaimer list leaves in the bytes of the header.
unfoldable pub rpmsg_virtio_release_tx_buffer :
    RpmsgHdr → RpmsgVirtioDevice → ℕ → ℤ × RpmsgVirtioDevice
rpmsg_virtio_release_tx_buffer overlaid rvdev txbuf =
    let b = txbuf - hdr_size in
    let (last, h) = rpmsg_virtio_buf_held_dec_test (rvdev.hdr b) in
    (
      rpmsg_success,
      (if last
          then record rvdev {
            hdr = update rvdev.hdr b overlaid;
            reclaimer = rvdev.reclaimer ++ ((b, buf_index h) ∷ []);
          }
          else record rvdev { hdr = update rvdev.hdr b h }),
    )

-- the size of a buffer less the header, where it is positive as an `int`
abbrev pub payload_size : ℕ → ℤ
payload_size n = if leb n hdr_size then rpmsg_err_no_buff else pos (n - hdr_size)

-- `notify_wait` and `sleep` say what the wait returns and what the other core has done to the shared
-- memory meanwhile.
module _ (env : Env) (notify_wait : RpmsgVirtioDevice → Waited × RpmsgVirtioDevice)
    (sleep : RpmsgVirtioDevice → RpmsgVirtioDevice) where
  unfoldable pub wait_tx : ℕ → ℕ → RpmsgVirtioDevice → Run (Option TxBuffer × RpmsgVirtioDevice)
  wait_tx zero ticks rvdev = out_of_fuel
  wait_tx (suc fuel) ticks rvdev = rpmsg_virtio_get_tx_buffer env rvdev >>= λ (got, rvdev').
      elim got [
        | some b ↦ ok (some b, rvdev')
        | none ↦ elim ticks [
          | zero ↦ ok (none, rvdev')
          | suc left ↦
              let (result, rvdev'') = notify_wait rvdev' in
              elim result [
                | not_supported ↦ wait_tx fuel left (sleep rvdev'')
                | notified ↦ ok (none, rvdev'')
                | other ↦ wait_tx fuel (suc left) rvdev''
              ]
        ]
      ]

  -- `driver_ok` says whether the status of the virtio device can be read and has DRIVER_OK.
  unfoldable pub rpmsg_virtio_get_tx_payload_buffer :
      ℕ → Bool → Bool → RpmsgVirtioDevice → Run (Option (ℕ × ℕ) × RpmsgVirtioDevice)
  unfolding wait_tx prepare_tx
  rpmsg_virtio_get_tx_payload_buffer fuel driver_ok wait rvdev =
      if not driver_ok
      then ok (none, rvdev)
      else do found ← wait_tx fuel (tick_count wait) rvdev; ok (prepare_tx found)

module _ (env : Env) where
  -- `data_` is the address of the payload, `len` is not negative; the results are that the other side
  -- is notified, and the length sent.
  unfoldable pub rpmsg_virtio_send_offchannel_nocopy :
      RpmsgVirtioDevice → ℕ → ℕ → ℕ → ℕ → Run (Bool × ℕ × RpmsgVirtioDevice)
  unfolding virtqueue_get_buffer_length
  rpmsg_virtio_send_offchannel_nocopy rvdev src dst data_ len = do
    let b = data_ - hdr_size
    let idx = buf_index (rvdev.hdr b)
    let header : RpmsgHdr = record {
      src = src;
      dst = dst;
      reserved = 0;
      len = len % u16;
      flags = 0;
    }
    let written = record rvdev { hdr = update rvdev.hdr b header }
    (status, sent) ← rpmsg_virtio_enqueue_buffer env written b (send_len rvdev.role rvdev idx) idx
    rpmsg_assert (is_success status)
    (told, vq) ← virtqueue_kick env sent.svq sent.svring
    ok (told, len, record sent { svq = vq })

  -- `none` is the return of RPMSG_ERR_NO_BUFF; the copy of the payload is not modelled.
  unfoldable pub rpmsg_virtio_send_offchannel_raw :
      (RpmsgVirtioDevice → Waited × RpmsgVirtioDevice)
      → (RpmsgVirtioDevice → RpmsgVirtioDevice)
      → ℕ
      → Bool
      → Bool
      → RpmsgVirtioDevice
      → ℕ
      → ℕ
      → ℕ
      → Run (Option (Bool × ℕ) × RpmsgVirtioDevice)
  unfolding rpmsg_virtio_send_offchannel_nocopy
  rpmsg_virtio_send_offchannel_raw notify_wait sleep fuel driver_ok wait rvdev src dst len = do
    (got, ready) ←
        rpmsg_virtio_get_tx_payload_buffer env notify_wait sleep fuel driver_ok wait rvdev
    elim got [
      | none ↦ ok (none, ready)
      | some (buffer, buff_len) ↦
          (rpmsg_virtio_send_offchannel_nocopy ready src dst buffer
              (if ltb buff_len len then buff_len else len)
            >>= λ (told, n, sent). ok (some (told, n), sent))
    ]

  unfoldable pub tx_size_as : Role → RpmsgVirtioDevice → Run (ℤ × RpmsgVirtioDevice)
  tx_size_as driver rvdev = ok (payload_size rvdev.h2r_buf_size, rvdev)
  tx_size_as device rvdev = do
    (n, vq) ← virtqueue_get_desc_size env rvdev.svq rvdev.svring
    ok (payload_size n, record rvdev { svq = vq })

  -- The buffers are shorter than `2 ^ 31` bytes.
  unfoldable pub rpmsg_virtio_get_tx_buffer_size : RpmsgVirtioDevice → Run (ℤ × RpmsgVirtioDevice)
  unfolding tx_size_as
  rpmsg_virtio_get_tx_buffer_size rvdev = tx_size_as rvdev.role rvdev

  unfoldable pub rx_size_as : Role → RpmsgVirtioDevice → Run (ℤ × RpmsgVirtioDevice)
  rx_size_as driver rvdev = ok (payload_size rvdev.r2h_buf_size, rvdev)
  rx_size_as device rvdev = do
    (n, vq) ← virtqueue_get_desc_size env rvdev.rvq rvdev.rvring
    ok (payload_size n, record rvdev { rvq = vq })

  unfoldable pub rpmsg_virtio_get_rx_buffer_size : RpmsgVirtioDevice → Run (ℤ × RpmsgVirtioDevice)
  unfolding rx_size_as
  rpmsg_virtio_get_rx_buffer_size rvdev = rx_size_as rvdev.role rvdev
