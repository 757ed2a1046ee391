-- ===== src/RpmsgVirtio/Wait.antt =====
-- The wait of rpmsg_virtio_get_tx_payload_buffer for a transmit buffer.
use v85x_openamp.Base.{
  ℕ, zero, suc, ◌+◌, ◌-◌, ◌<◌, ◌≡◌, refl, false, Option, none, some, List, [], ◌∷◌, ◌==◌, arith,
  Bool-cases, inl, inr, bit_and, ◌%◌, ◌∙◌,
}
use v85x_openamp.Virtqueue.State.{
  ok, Env, Vring, Virtqueue, u16, device, vqassert, vqueue_busy, vqueue_idle,
}
use v85x_openamp.Virtqueue.Device.{
  AvailableBuffer, virtqueue_get_available_buffer, virtqueue_get_buffer_addr,
  virtqueue_get_buffer_length,
}
use v85x_openamp.RpmsgVirtio.State.{RpmsgVirtioDevice}
use v85x_openamp.RpmsgVirtio.Buffers.{
  TxBuffer, rpmsg_virtio_get_tx_buffer, fresh_tx, available_data, recycled_len,
}
use v85x_openamp.RpmsgVirtio.Send.{Waited, not_supported, wait_tx}

take_available :
    (env : Env) (vq : Virtqueue) (vr : Vring)
    → env.debug ≡ false
    → (got : Option AvailableBuffer) × (vq' : Virtqueue) × (virtqueue_get_available_buffer env vq vr
        ≡ ok (got, vq'))
unfolding virtqueue_get_available_buffer virtqueue_get_buffer_addr virtqueue_get_buffer_length
    vqueue_busy vqueue_idle vqassert
take_available env vq vr fast =
    let i = vr.avail_ring (bit_and vq.vq_available_idx (vq.vq_nentries - 1)) in
    elim (Bool-cases (vq.vq_available_idx == vr.avail_idx)) [
      | inl empty ↦ (none, vq, ground (arith, empty))
      | inr more ↦ (
        some (record {
          buffer = env.phys_to_virt (vr.desc i).addr;
          avail_idx = i;
          len = (vr.desc i).len;
        }),
        record vq { vq_available_idx = (vq.vq_available_idx + 1) % u16 },
        ground (arith, more, fast),
      )
    ]

-- a request on the device side, in a build without the checks
get_tx_device :
    (env : Env) (rvdev : RpmsgVirtioDevice)
    → env.debug ≡ false
    → rvdev.role ≡ device
    → (got : Option TxBuffer) × (rvdev' : RpmsgVirtioDevice) × (rpmsg_virtio_get_tx_buffer env rvdev
        ≡ ok (got, rvdev'))
      × (rvdev'.role ≡ device)
unfolding rpmsg_virtio_get_tx_buffer fresh_tx
get_tx_device env rvdev fast role = go rvdev.reclaimer refl
  where
    go :
        (rs : List (ℕ × ℕ))
        → rvdev.reclaimer ≡ rs
        → (got : Option TxBuffer) × (rvdev' : RpmsgVirtioDevice) × (rpmsg_virtio_get_tx_buffer env
              rvdev
            ≡ ok (got, rvdev'))
          × (rvdev'.role ≡ device)
    go [] e =
        let (got, vq', call) = take_available env rvdev.svq rvdev.svring fast in
        (available_data got, record rvdev { svq = vq' }, rw (e, role, call) refl, role)
    go ((b, idx) ∷ rs) e = (
      some (record { data_ = b; len = recycled_len rvdev.role rvdev idx; idx = idx }),
      record rvdev { reclaimer = rs },
      rw e refl,
      role,
    )

module _ (env : Env) (notify_wait : RpmsgVirtioDevice → Waited × RpmsgVirtioDevice)
    (sleep : RpmsgVirtioDevice → RpmsgVirtioDevice) where
  -- On the device side, in a build without the checks and without a callback to wait in, the wait for a
  -- buffer ends with a result after at most one round more than it has ticks, whatever the other core
  -- does meanwhile.
  pub wait_tx_ends :
      (fuel ticks : ℕ) (rvdev : RpmsgVirtioDevice)
      → env.debug ≡ false
      → ((r : RpmsgVirtioDevice) → (notify_wait r).0 ≡ not_supported)
      → ((r : RpmsgVirtioDevice) → (sleep (notify_wait r).1).role ≡ r.role)
      → rvdev.role ≡ device
      → ticks < fuel
      → (found : Option TxBuffer × RpmsgVirtioDevice) × (wait_tx env notify_wait sleep fuel ticks
            rvdev
          ≡ ok found)
  unfolding wait_tx
  wait_tx_ends zero ticks rvdev fast none_ keeps role enough = absurd (omega arith)
  wait_tx_ends (suc fuel) zero rvdev fast none_ keeps role enough =
      let (got, rvdev', call, role') = get_tx_device env rvdev fast role in ended got rvdev' call
    where
      ended :
          (got : Option TxBuffer) (r : RpmsgVirtioDevice)
          → rpmsg_virtio_get_tx_buffer env rvdev ≡ ok (got, r)
          → (found : Option TxBuffer × RpmsgVirtioDevice) × (wait_tx env notify_wait sleep
                (suc fuel)
                zero
                rvdev
              ≡ ok found)
      ended (some b) r e = ((some b, r), rw e refl)
      ended none r e = ((none, r), rw e refl)
  wait_tx_ends (suc fuel) (suc left) rvdev fast none_ keeps role enough =
      let (got, rvdev', call, role') = get_tx_device env rvdev fast role in
      ended got rvdev' call (
        wait_tx_ends fuel left (sleep (notify_wait rvdev').1) fast none_ keeps
          (keeps rvdev' ∙ role') (omega (arith, enough)))
    where
      ended :
          (got : Option TxBuffer) (r : RpmsgVirtioDevice)
          → rpmsg_virtio_get_tx_buffer env rvdev ≡ ok (got, r)
          → (found : Option TxBuffer × RpmsgVirtioDevice) × (wait_tx env notify_wait sleep fuel left
                (sleep (notify_wait r).1)
              ≡ ok found)
          → (found : Option TxBuffer × RpmsgVirtioDevice) × (wait_tx env notify_wait sleep
                (suc fuel)
                (suc left)
                rvdev
              ≡ ok found)
      ended (some b) r e next = ((some b, r), rw e refl)
      ended none r e next = (next.0, rw (e, none_ r) next.1)
