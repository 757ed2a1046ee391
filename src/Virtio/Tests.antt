-- ===== src/Virtio/Tests.antt =====
-- The theorems on remoteproc_virtio.c at a device with two vrings.
use v85x_openamp.Base.{
  none, ◌-◌, ◌&&◌, if◌then◌else◌, leb, ltb, length, ℕ, ◌+◌, ◌≤◌, ◌<◌, ◌≡◌, [], ◌∷◌, arith, some,
  true, false, ◌⊎◌,
}
use v85x_openamp.Virtqueue.State.{driver, is_success}
use v85x_openamp.Virtqueue.Samples.{checked, linked_ring}
use v85x_openamp.Virtio.Rproc.{
  FwRscVdev, BlockIo, RprocVirtio, null, rproc_virtio_create_virtqueues, rproc_virtio_read_config,
  rproc_virtio_write_config,
}
use v85x_openamp.Virtio.Config.{bytes_at, put_at, RegionOf, read-write_config}
use v85x_openamp.Virtio.Queues.{live, rproc_virtio_create_virtqueues-live}

abbrev a_rsc : FwRscVdev
a_rsc = record {
  id = 7;
  notifyid = 0;
  dfeatures = 1;
  gfeatures = 0;
  config_len = 8;
  status = 0;
  num_of_vrings = 2;
  config = 4100;
  region = λ i. 0;
}

abbrev a_vdev : RprocVirtio
a_vdev = record {
  notifyid = 5;
  device_id = 7;
  role = driver;
  event_idx = false;
  vrings_num = 2;
  vrings_info =
      λ i. record { vq = null; vaddr = 4096 + i; num_descs = 4; align = 4096; notifyid = i };
  vdev_rsc = a_rsc;
  ring = λ a. linked_ring;
  sent = [];
}

-- a region of 64 bytes at the address 4096
abbrev blocks : BlockIo
blocks = record {
  virt_to_offset = λ a. if leb 4096 a && ltb a 4160 then a - 4096 else 0xffffffff;
  block_read = λ mem o n. if leb (o + n) 64 && ltb o 64 then some (bytes_at mem o n) else none;
  block_write = λ mem o src. if leb (o + length src) 64 && ltb o 64 then put_at mem o src else mem;
}

blocks-RegionOf : RegionOf blocks 4096 64
blocks-RegionOf = record {
  offset_of = λ a low high. ground (arith, low, high);
  reads = λ mem o n first last. ground (arith, first, last);
  writes = λ mem o src first last. ground (arith, first, last);
}

read-write_config_example :
    let v' = rproc_virtio_write_config blocks a_vdev 2 (10 ∷ 20 ∷ 30 ∷ []) in
    (rproc_virtio_read_config blocks v' 2 3 ≡ some (10 ∷ 20 ∷ 30 ∷ []))
    × ((j : ℕ) → ((6 ≤ j) × (j < 9)) ⊎ (v'.vdev_rsc.region j ≡ 0))
    × (v'.sent ≡ 5 ∷ [])
read-write_config_example =
    read-write_config blocks 4096 64 blocks-RegionOf (omega arith) a_vdev 2 (10 ∷ 20 ∷ 30 ∷ [])
      (omega arith) (omega arith) (omega arith) (omega arith) (omega arith)

rproc_virtio_create_virtqueues-live_example :
    let (status, v') = rproc_virtio_create_virtqueues checked (λ n. true) a_vdev 2 (λ i. true) in
    live v' 1 ≡ is_success status
rproc_virtio_create_virtqueues-live_example =
    rproc_virtio_create_virtqueues-live checked (λ n. true) a_vdev 2 (λ i. true) 1 (omega arith)
      (omega arith)
