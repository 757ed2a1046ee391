-- ===== src/RpmsgVirtio/Init.antt =====
-- rpmsg_virtio.c: rpmsg_init_vdev_with_config, which starts an rpmsg device on a virtio device, and
-- rpmsg_deinit_vdev.
use v85x_openamp.Base.{
  ℕ, zero, suc, Bool, true, false, not, ◌||◌, Option, none, some, List, [], ◌∷◌, if◌then◌else◌,
  ◌==◌, bit_and, ℤ, pos, is_zero, ◌⊎◌, inl, inr,
}
use v85x_openamp.Virtqueue.State.{
  Run, ok, out_of_fuel, ◌>>=◌, Env, Role, driver, device, is_driver, Virtqueue, Vring, is_success,
}
use v85x_openamp.Virtqueue.Driver.{virtqueue_add_buffer}
use v85x_openamp.Virtqueue.Events.{virtqueue_disable_cb}
use v85x_openamp.Rpmsg.State.{
  Bitmap, Device, DeviceOps, rpmsg_addr_bmp_size, rpmsg_ns_ept_addr, rpmsg_success,
  rpmsg_err_no_buff, rpmsg_err_param,
}
use v85x_openamp.Rpmsg.Endpoint.{rpmsg_register_endpoint, rpmsg_destroy_ept}
use v85x_openamp.RpmsgVirtio.State.{ShmPool, RpmsgVirtioDevice, rpmsg_virtio_shm_pool_get_buffer}
use v85x_openamp.RpmsgVirtio.Buffers.{one_buf}
use v85x_openamp.Virtio.{
  Dispatch, virtio_get_status, virtio_set_status, virtio_get_features, virtio_delete_virtqueues,
  virtio_create_virtqueues,
}
use v85x_openamp.Virtio.Rproc.{status_code, needs_reset, driver_ok}

-- `struct rpmsg_virtio_config`
pub record Config : Type 0 where
  pub h2r_buf_size : ℕ
  pub r2h_buf_size : ℕ
  pub split_shpool : Bool

-- The name "NS" of the name service.
abbrev pub ns_name : List ℕ
ns_name = 78 ∷ 83 ∷ []

-- The loop that offers `n` receive buffers of the pool to the other side.
unfoldable pub offer_buffers :
    Env → ℕ → ℕ → Virtqueue → Vring → ShmPool → Run (ℤ × Virtqueue × Vring × ShmPool)
offer_buffers env size zero vq vr pool = ok (rpmsg_success, vq, vr, pool)
offer_buffers env size (suc n) vq vr pool =
    let (got, pool') = rpmsg_virtio_shm_pool_get_buffer pool size in
    elim got [
      | none ↦ ok (rpmsg_err_no_buff, vq, vr, pool')
      | some buffer ↦
          virtqueue_add_buffer env vq vr (one_buf buffer size) 0 1 (some buffer)
          >>= λ (status, vq', vr'). elim (is_success status) [
            | true ↦ offer_buffers env size n vq' vr' pool'
            | false ↦ ok (status_code status, vq', vr', pool')
          ]
    ]

-- the queue that a role receives from, and the one it sends to
abbrev pub rvq_index : Role → ℕ
rvq_index driver = 0
rvq_index device = 1

abbrev pub svq_index : Role → ℕ
svq_index driver = 1
svq_index device = 0

-- The callback for the queue `i`; both roles have set both.
abbrev pub callbacks : ℕ → Bool
callbacks i = true

-- the buffers of the driver; the device side leaves them to the driver
unfoldable pub first_buffers :
    Env → Config → Role → ShmPool → ShmPool → RpmsgVirtioDevice → Run (ℤ × RpmsgVirtioDevice)
unfolding offer_buffers
first_buffers env config device shpool behind rvdev = ok (rpmsg_success, rvdev)
first_buffers env config driver shpool behind rvdev = do
  (status, vq, vr, pool) ←
      offer_buffers env config.r2h_buf_size rvdev.rvq.vq_nentries rvdev.rvq rvdev.rvring shpool
  ok (
    status,
    record rvdev { rvq = vq; rvring = vr; shpool = if config.split_shpool then behind else pool },
  )

abbrev pub pool_failure : Config → Option (ShmPool × ShmPool) → Option ℤ
pool_failure config none = some rpmsg_err_param
pool_failure config (some (shpool, behind)) =
    if (shpool.size == 0) || ((if config.split_shpool then behind else shpool).size == 0)
    then some rpmsg_err_no_buff
    else none

-- the pool and what stands behind it, as the driver checks them; the device side does not look
abbrev pub pools : Config → Role → Option (ShmPool × ShmPool) → ShmPool → ℤ ⊎ (ShmPool × ShmPool)
pools config device given old = inr (old, old)
pools config driver given old = elim (pool_failure config given) [
  | some status ↦ inl status
  | none ↦ elim given [ none ↦ inr (old, old) | some p ↦ inr p ]
]

module _ {V : Type 0} (func : Dispatch V) where
  -- Each round reads the status, which the other core may have changed.
  unfoldable pub rpmsg_virtio_wait_remote_ready : ℕ → V → Run (ℤ × V)
  unfolding virtio_get_status virtio_set_status
  rpmsg_virtio_wait_remote_ready zero v = out_of_fuel
  rpmsg_virtio_wait_remote_ready (suc fuel) v =
      let (ret, status, v') = virtio_get_status func v in
      elim status [
        | none ↦ ok (ret, v')
        | some st ↦ elim (bit_and st needs_reset == 0) [
          | false ↦
              let (ret', v'') = virtio_set_status func v' 0 in
              elim (is_zero ret') [
                | true ↦ rpmsg_virtio_wait_remote_ready fuel v''
                | false ↦ ok (ret', v'')
              ]
          | true ↦ elim (bit_and st driver_ok == 0) [
            | false ↦ ok (pos 0, v')
            | true ↦ rpmsg_virtio_wait_remote_ready fuel v'
          ]
        ]
      ]

  abbrev pub wait_as : Role → ℕ → V → Run (ℤ × V)
  wait_as driver fuel v = ok (pos 0, v)
  wait_as device fuel v = rpmsg_virtio_wait_remote_ready fuel v

  -- `queue_of` is `vrings_info[i].vq` with its ring, `otherwise` what virtio_create_virtqueues does for
  -- a device that has no such call of its own.
  module _ (metal : Bitmap rpmsg_addr_bmp_size) (env : Env) (queue_of : V → ℕ → Virtqueue × Vring)
      (otherwise : V → ℕ → (ℕ → Bool) → ℤ × V) (role : Role) (config : Config)
      (ops : DeviceOps RpmsgVirtioDevice) (ns_ept : ℕ) (ns_callback : ℕ) where
    abbrev Started : Type 0
    Started = Run (ℤ × V × Device metal.Bits RpmsgVirtioDevice)

    abbrev pub announce_ready : Role → V → ℤ × V
    announce_ready driver v = virtio_set_status func v driver_ok
    announce_ready device v = (pos 0, v)

    -- from the lists of endpoints on
    unfoldable pub open_device :
        V → Device metal.Bits RpmsgVirtioDevice → ℤ × V × Device metal.Bits RpmsgVirtioDevice
    unfolding rpmsg_register_endpoint
    open_device v d =
        let fresh = record d { endpoints = [] } in
        let known =
          if d.support_ns
          then rpmsg_register_endpoint metal fresh ns_ept (some ns_name) rpmsg_ns_ept_addr
              rpmsg_ns_ept_addr (some ns_callback) none 0
          else fresh in
        let (status, v') = announce_ready role v in
        if is_zero status
        then (rpmsg_success, v', known)
        else (status, virtio_delete_virtqueues func v', known)

    -- from the creation of the queues on
    unfoldable pub start_queues :
        V → ShmPool → ShmPool → Device metal.Bits RpmsgVirtioDevice → Started
    unfolding first_buffers open_device
    start_queues v shpool behind d =
        let (status, v') = virtio_create_virtqueues func otherwise v 2 callbacks in
        let (rvq, rvring) = queue_of v' (rvq_index role) in
        let (svq, svring) = queue_of v' (svq_index role) in
        elim (is_zero status) [
          | false ↦ ok (status, v', d)
          | true ↦ virtqueue_disable_cb env svq svring >>= λ (svq', svring').
              first_buffers env config role shpool behind (record d.transport {
                role = role;
                rvq = rvq;
                rvring = rvring;
                svq = svq';
                svring = svring';
              })
              >>= λ (filled, rvdev). elim (is_zero filled) [
                | true ↦ ok (open_device v' (record d { transport = rvdev }))
                | false ↦
                    ok (filled, virtio_delete_virtqueues func v', record d { transport = rvdev })
              ]
        ]

    -- For pointers that are not NULL but for the pool, which is given with the pool behind it, and with a
    -- configuration. `blank` is the device as `memset` leaves it. Where the pool is refused, the model keeps
    -- the one that the device had.
    unfoldable pub rpmsg_init_vdev_with_config :
        ℕ
        → V
        → Option (ShmPool × ShmPool)
        → Device metal.Bits RpmsgVirtioDevice
        → Run (ℤ × V × Device metal.Bits RpmsgVirtioDevice)
    unfolding start_queues rpmsg_virtio_wait_remote_ready
    rpmsg_init_vdev_with_config fuel v shpool blank =
        let sized = record blank.transport {
          role = role;
          h2r_buf_size =
              if is_driver role then config.h2r_buf_size else blank.transport.h2r_buf_size;
          r2h_buf_size =
              if is_driver role then config.r2h_buf_size else blank.transport.r2h_buf_size;
        } in
        let d = record blank { ops = ops; transport = sized } in
        wait_as role fuel v >>= λ (ready, v1). elim (is_zero ready) [
          | false ↦ ok (ready, v1, d)
          | true ↦
              let (got, features, v2) = virtio_get_features func v1 in
              elim features [
                | none ↦ ok (got, v2, d)
                | some bits ↦
                    let d' = record d { support_ns = not (bit_and bits 1 == 0) } in
                    elim (pools config role shpool blank.transport.shpool) [
                      | inl status ↦ ok (status, v2, d')
                      | inr (pool, behind) ↦
                          let kept = if config.split_shpool then behind else pool in
                          let rvdev = record sized { shpool = kept; reclaimer = [] } in
                          start_queues v2 pool behind (record d' { transport = rvdev })
                    ]
              ]
        ]

  -- For a device that is not NULL. The endpoints are destroyed from the front of the list.
  module _ (metal : Bitmap rpmsg_addr_bmp_size) (message : ℕ → ℕ → ℕ) (message_size : ℤ) where
    unfoldable pub rpmsg_deinit_vdev :
        ℕ → V → Device metal.Bits RpmsgVirtioDevice → Run (V × Device metal.Bits RpmsgVirtioDevice)
    rpmsg_deinit_vdev zero v d = out_of_fuel
    rpmsg_deinit_vdev (suc fuel) v d = elim d.endpoints [
      | [] ↦ ok (virtio_delete_virtqueues func v, d)
      | p ∷ ps ↦ rpmsg_deinit_vdev fuel v (rpmsg_destroy_ept metal message message_size d (some p))
    ]
