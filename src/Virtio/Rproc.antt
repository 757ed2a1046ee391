-- ===== src/Virtio/Rproc.antt =====
-- openamp/openamp/remoteproc/remoteproc_virtio.c: a virtio device that a resource table in shared
-- memory describes.
use v85x_openamp.Base.{
  ℕ, zero, suc, ◌+◌, ◌%◌, Bool, true, false, not, ◌||◌, ◌&&◌, Option, none, some, List, [], ◌∷◌,
  if◌then◌else◌, ltb, leb, ◌==◌, update, bit_and, length, ℤ, pos, negsuc,
}
use v85x_openamp.Virtqueue.State.{
  Run, ok, out_of_fuel, Env, Role, driver, is_driver, Virtqueue, Vring, Status, success, no_mem,
  invld_param, is_success, u32,
}
use v85x_openamp.Virtqueue.Driver.{virtqueue_create}
use v85x_openamp.Virtqueue.Events.{virtqueue_notification}
use v85x_openamp.Virtio.{Dispatch}

-- `struct fw_rsc_vdev`; `config` is the address of the configuration space behind it, `region` what the
-- I/O region that they are in holds, by the offset.
pub record FwRscVdev : Type 0 where
  pub id : ℕ
  pub notifyid : ℕ
  pub dfeatures : ℕ
  pub gfeatures : ℕ
  pub config_len : ℕ
  pub status : ℕ
  pub num_of_vrings : ℕ
  pub config : ℕ
  pub region : ℕ → ℕ

-- what `vq` of a vring points to: nothing, a queue, or memory that has been given back
pub data QueuePointer : Type 0 where
  null freed : QueuePointer
  queue : Virtqueue → QueuePointer

-- `struct virtio_vring_info` with its `info`; the ring is that at `vaddr`.
pub record VringInfo : Type 0 where
  pub vq : QueuePointer
  pub vaddr : ℕ
  pub num_descs : ℕ
  pub align : ℕ
  pub notifyid : ℕ

-- `struct remoteproc_virtio` and the `struct virtio_device` in it. `ring` is the memory of the rings by
-- address, `sent` the ids that `notify` has been called with, the last one first.
pub record RprocVirtio : Type 0 where
  pub notifyid : ℕ
  pub device_id : ℕ
  pub role : Role
  pub event_idx : Bool
  pub vrings_num : ℕ
  pub vrings_info : ℕ → VringInfo
  pub vdev_rsc : FwRscVdev
  pub ring : ℕ → Vring
  pub sent : List ℕ

-- the results of virtqueue.h as numbers
abbrev pub status_code : Status → ℤ
status_code success = pos 0
status_code Status.vring_full = negsuc 3000
status_code no_mem = negsuc 3003
status_code Status.vring_align = negsuc 3005
status_code Status.vring_no_buff = negsuc 3006
status_code invld_param = negsuc 3007

abbrev pub einval : ℤ
einval = negsuc 1

-- a queue of zeroed memory
abbrev pub zeroed_queue : Virtqueue
zeroed_queue = record {
  role = driver;
  event_idx = false;
  vq_queue_index = 0;
  vq_nentries = 0;
  has_callback = false;
  has_notify = false;
  vq_free_cnt = 0;
  vq_queued_cnt = 0;
  vq_desc_head_idx = 0;
  vq_used_cons_idx = 0;
  vq_available_idx = 0;
  vq_inuse = false;
  vq_descx = λ i. record { cookie = none; ndescs = 0 };
}

-- `metal_io_block_set` of a ring to 0
abbrev pub zeroed_ring : Vring → Vring
zeroed_ring vr = record {
  num = vr.num;
  desc = λ i. record { addr = 0; len = 0; flags = 0; next = 0 };
  avail_flags = 0;
  avail_idx = 0;
  avail_ring = λ i. 0;
  used_flags = 0;
  used_idx = 0;
  used_ring = λ i. record { id = 0; len = 0 };
}

abbrev pub set_vq : RprocVirtio → ℕ → QueuePointer → RprocVirtio
set_vq v i p = record v {
  vrings_info = update v.vrings_info i (record (v.vrings_info i) { vq = p });
}

abbrev pub released : QueuePointer → QueuePointer
released null = null
released (queue vq) = freed
released freed = freed

-- the loop of `rproc_virtio_delete_virtqueues` from the vring `i` on, with `r` rounds to go
unfoldable pub delete_loop : RprocVirtio → ℕ → ℕ → RprocVirtio
delete_loop v i zero = v
delete_loop v i (suc r) = delete_loop (set_vq v i (released (v.vrings_info i).vq)) (suc i) r

unfoldable pub rproc_virtio_delete_virtqueues : RprocVirtio → RprocVirtio
unfolding delete_loop
rproc_virtio_delete_virtqueues v = delete_loop v 0 v.vrings_num

abbrev pub is_null : QueuePointer → Bool
is_null null = true
is_null _ = false

-- `memory` tells whether there is memory for a queue of that many descriptors.
module _ (env : Env) (memory : ℕ → Bool) where
  unfoldable pub rproc_virtio_create_virtqueue : RprocVirtio → ℕ → Bool → Status × RprocVirtio
  rproc_virtio_create_virtqueue v idx callback =
      let info = v.vrings_info idx in
      let old = v.ring info.vaddr in
      let (status, vq, vr) =
        virtqueue_create env v.role v.event_idx idx (record { num_descs = info.num_descs }) callback
          true zeroed_queue (if is_driver v.role then zeroed_ring old else old) in
      if not (is_null info.vq)
      then (invld_param, v)
      else if not (memory info.num_descs)
      then (no_mem, v)
      else (status, set_vq (record v { ring = update v.ring info.vaddr vr }) idx (queue vq))

  -- the loop of `rproc_virtio_create_virtqueues`, with its label `err`
  unfoldable pub create_loop : RprocVirtio → (ℕ → Bool) → ℕ → ℕ → Status × RprocVirtio
  unfolding rproc_virtio_create_virtqueue
  create_loop v callbacks i zero = (success, v)
  create_loop v callbacks i (suc r) =
      let (status, v') = rproc_virtio_create_virtqueue v i (callbacks i) in
      let rest = create_loop v' callbacks (suc i) r in
      if is_success status then rest else (status, rproc_virtio_delete_virtqueues v')

  unfoldable pub rproc_virtio_create_virtqueues :
      RprocVirtio → ℕ → (ℕ → Bool) → Status × RprocVirtio
  unfolding create_loop
  rproc_virtio_create_virtqueues v nvqs callbacks =
      if ltb v.vrings_num nvqs then (invld_param, v) else create_loop v callbacks 0 nvqs

abbrev pub notify : RprocVirtio → ℕ → RprocVirtio
notify v id = record v { sent = id ∷ v.sent }

-- `none` is a failed assertion
unfoldable pub rproc_virtio_virtqueue_notify : RprocVirtio → ℕ → Option RprocVirtio
rproc_virtio_virtqueue_notify v vq_id =
    if ltb vq_id v.vrings_num then some (notify v (v.vrings_info vq_id).notifyid) else none

unfoldable pub rproc_virtio_get_status : RprocVirtio → ℕ
rproc_virtio_get_status v = v.vdev_rsc.status % 256

unfoldable pub rproc_virtio_set_status : RprocVirtio → ℕ → RprocVirtio
rproc_virtio_set_status v status =
    notify (record v { vdev_rsc = record v.vdev_rsc { status = status % 256 } }) v.notifyid

unfoldable pub rproc_virtio_get_dfeatures : RprocVirtio → ℕ
rproc_virtio_get_dfeatures v = v.vdev_rsc.dfeatures

unfoldable pub rproc_virtio_get_features : RprocVirtio → ℕ
unfolding rproc_virtio_get_dfeatures
rproc_virtio_get_features v = bit_and (rproc_virtio_get_dfeatures v) v.vdev_rsc.gfeatures

unfoldable pub rproc_virtio_set_features : RprocVirtio → ℕ → RprocVirtio
rproc_virtio_set_features v features =
    notify (record v { vdev_rsc = record v.vdev_rsc { gfeatures = features } }) v.notifyid

unfoldable pub rproc_virtio_negotiate_features : RprocVirtio → ℕ → ℕ × RprocVirtio
unfolding rproc_virtio_set_features
rproc_virtio_negotiate_features v features =
    (0, rproc_virtio_set_features v (bit_and (rproc_virtio_get_dfeatures v) features))

-- What libmetal does with the I/O region of the table (include/metal/io.h): metal_io_virt_to_offset,
-- metal_io_block_read with the bytes that it stores, `none` where it stores none, and
-- metal_io_block_write.
pub record BlockIo : Type 0 where
  pub virt_to_offset : ℕ → ℕ
  pub block_read : (ℕ → ℕ) → ℕ → ℕ → Option (List ℕ)
  pub block_write : (ℕ → ℕ) → ℕ → List ℕ → ℕ → ℕ

-- the offset in the region of a byte of the configuration space
abbrev pub config_offset : BlockIo → FwRscVdev → ℕ → ℕ
config_offset io rsc offset = io.virt_to_offset ((rsc.config + offset) % u32)

-- `none` is where nothing is stored through `dst`
unfoldable pub rproc_virtio_read_config : BlockIo → RprocVirtio → ℕ → ℕ → Option (List ℕ)
rproc_virtio_read_config io v offset len =
    if leb ((offset + len) % u32) v.vdev_rsc.config_len
    then io.block_read v.vdev_rsc.region (config_offset io v.vdev_rsc offset) len
    else none

unfoldable pub rproc_virtio_write_config : BlockIo → RprocVirtio → ℕ → List ℕ → RprocVirtio
rproc_virtio_write_config io v offset src =
    if leb ((offset + length src) % u32) v.vdev_rsc.config_len
    then notify
        (record v {
          vdev_rsc = record v.vdev_rsc {
            region = io.block_write v.vdev_rsc.region (config_offset io v.vdev_rsc offset) src;
          };
        })
        v.notifyid
    else v

-- VIRTIO_CONFIG_STATUS_NEEDS_RESET and VIRTIO_CONFIG_STATUS_DRIVER_OK
abbrev pub needs_reset : ℕ
needs_reset = 0x40

abbrev pub driver_ok : ℕ
driver_ok = 0x04

unfoldable pub rproc_virtio_reset_device : RprocVirtio → RprocVirtio
unfolding rproc_virtio_set_status
rproc_virtio_reset_device v = if is_driver v.role then rproc_virtio_set_status v needs_reset else v

abbrev pub only_if {ℓ} : {A : Type ℓ} → Bool → A → Option A
only_if true a = some a
only_if false a = none

-- `remoteproc_virtio_dispatch_funcs`; `driver_support` tells whether the build defines
-- VIRTIO_DRIVER_SUPPORT as 1, which that of the firmware does not.
abbrev pub remoteproc_virtio_dispatch_funcs :
    Env → (ℕ → Bool) → BlockIo → Bool → Dispatch RprocVirtio
remoteproc_virtio_dispatch_funcs env memory io driver_support = record {
  create_virtqueues = some (λ v nvqs callbacks.
      let (status, v') = rproc_virtio_create_virtqueues env memory v nvqs callbacks in
      (status_code status, v'));
  delete_virtqueues = some rproc_virtio_delete_virtqueues;
  get_status = some (λ v. (rproc_virtio_get_status v, v));
  set_status = only_if driver_support rproc_virtio_set_status;
  get_features = some (λ v. (rproc_virtio_get_features v, v));
  set_features = only_if driver_support rproc_virtio_set_features;
  negotiate_features = only_if driver_support rproc_virtio_negotiate_features;
  read_config = some (λ v offset len.
      (elim (rproc_virtio_read_config io v offset len) [ none ↦ [] | some bytes ↦ bytes ], v));
  write_config = only_if driver_support (rproc_virtio_write_config io);
  reset_device = only_if driver_support rproc_virtio_reset_device;
}

-- The structures as `memset` leaves them, and the fields that are set; `memory` tells whether each of
-- the two allocations succeeds, `ring` is what the memory of rings holds.
unfoldable pub rproc_virtio_create_vdev :
    Bool → Bool → Bool → (ℕ → Vring) → Role → ℕ → FwRscVdev → Option RprocVirtio
unfolding rproc_virtio_negotiate_features
rproc_virtio_create_vdev driver_support memory memory' ring role notifyid rsc =
    let v : RprocVirtio = record {
      notifyid = notifyid;
      device_id = rsc.id;
      role = role;
      event_idx = false;
      vrings_num = rsc.num_of_vrings;
      vrings_info = λ i. record { vq = null; vaddr = 0; num_descs = 0; align = 0; notifyid = 0 };
      vdev_rsc = rsc;
      ring = ring;
      sent = [];
    } in
    if not memory || not memory'
    then none
    else if driver_support && is_driver role
    then some (rproc_virtio_negotiate_features v (rproc_virtio_get_dfeatures v)).1
    else some v

-- RPROC_MAX_VRING_DESC
abbrev pub max_vring_desc : ℕ
max_vring_desc = 65535

unfoldable pub rproc_virtio_init_vring : RprocVirtio → ℕ → ℕ → ℕ → ℕ → ℕ → ℤ × RprocVirtio
rproc_virtio_init_vring v index notifyid va num_descs align =
    if leb v.vrings_num index || ltb max_vring_desc num_descs then (einval, v) else (
      pos 0,
      record v {
        vrings_info = update v.vrings_info index (record (v.vrings_info index) {
          notifyid = notifyid;
          vaddr = va;
          num_descs = num_descs;
          align = align;
        });
      },
    )

-- RSC_NOTIFY_ID_ANY
abbrev pub notify_id_any : ℕ
notify_id_any = 0xffffffff

-- `virtqueue_notification` of a pointer; `callback` is that of the queue of the vring `i`. `none` is a
-- read through a pointer to no queue.
abbrev pub notification : (RprocVirtio → ℕ → RprocVirtio) → RprocVirtio → ℕ → Option RprocVirtio
notification callback v i = elim (v.vrings_info i).vq [
  | null ↦ none
  | freed ↦ none
  | queue vq ↦ some (if virtqueue_notification vq then callback v i else v)
]

module _ (callback : RprocVirtio → ℕ → RprocVirtio) where
  -- the loop of `rproc_virtio_notified`
  unfoldable pub notified_loop : RprocVirtio → ℕ → ℕ → ℕ → Option RprocVirtio
  notified_loop v notifyid i zero = some v
  notified_loop v notifyid i (suc r) =
      let here = (v.vrings_info i).notifyid == notifyid || notifyid == notify_id_any in
      elim (if here then notification callback v i else some v) [
        | none ↦ none
        | some v' ↦ notified_loop v' notifyid (suc i) r
      ]

  -- for a device that is not NULL; it returns 0
  unfoldable pub rproc_virtio_notified : RprocVirtio → ℕ → Option RprocVirtio
  unfolding notified_loop
  rproc_virtio_notified v notifyid =
      if v.notifyid == notifyid then some v else notified_loop v notifyid 0 v.vrings_num

-- `elsewhere` is what the other core does in one round of the wait.
unfoldable pub rproc_virtio_wait_remote_ready :
    (RprocVirtio → RprocVirtio) → ℕ → RprocVirtio → Run RprocVirtio
rproc_virtio_wait_remote_ready elsewhere zero v = out_of_fuel
rproc_virtio_wait_remote_ready elsewhere (suc fuel) v =
    let rest = rproc_virtio_wait_remote_ready elsewhere fuel (elsewhere v) in
    if is_driver v.role
    then ok v
    else if bit_and (rproc_virtio_get_status v) driver_ok == 0
    then rest
    else ok v
