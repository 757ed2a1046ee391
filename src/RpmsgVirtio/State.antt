-- ===== src/RpmsgVirtio/State.antt =====
-- The state of an rpmsg device over virtio (struct rpmsg_virtio_device and struct
-- rpmsg_virtio_shm_pool of include/openamp/rpmsg_virtio.h, struct rpmsg_hdr of rpmsg_internal.h), and
-- the operations on one header and on the pool.
use v85x_openamp.Base.{
  ℕ, ◌+◌, ◌-◌, ◌/◌, ◌%◌, Bool, false, not, ◌||◌, Option, none, some, List, if◌then◌else◌, ltb, leb,
  ◌==◌,
}
use v85x_openamp.Virtqueue.State.{Vring, Virtqueue, Role, u16, u32}

-- `struct rpmsg_hdr`
pub record RpmsgHdr : Type 0 where
  pub src : ℕ
  pub dst : ℕ
  pub reserved : ℕ
  pub len : ℕ
  pub flags : ℕ

-- `sizeof(struct rpmsg_hdr)`
abbrev pub hdr_size : ℕ
hdr_size = 16

-- `struct rpmsg_virtio_shm_pool`
pub record ShmPool : Type 0 where
  pub base : ℕ
  pub size : ℕ
  pub avail : ℕ

-- `struct rpmsg_virtio_device`, less the rpmsg device that it begins with: the two queues with their
-- rings, the pool, the buffers to be used again with their indices, and the headers in shared memory by
-- the address of their buffer.
pub record RpmsgVirtioDevice : Type 0 where
  pub role : Role
  pub h2r_buf_size : ℕ
  pub r2h_buf_size : ℕ
  pub rvq : Virtqueue
  pub rvring : Vring
  pub svq : Virtqueue
  pub svring : Vring
  pub shpool : ShmPool
  pub reclaimer : List (ℕ × ℕ)
  pub hdr : ℕ → RpmsgHdr

unfoldable pub rpmsg_virtio_shm_pool_get_buffer : ShmPool → ℕ → Option ℕ × ShmPool
rpmsg_virtio_shm_pool_get_buffer shpool size =
    if (size == 0) || ltb shpool.avail size then (none, shpool) else (
      some (shpool.base + shpool.size - shpool.avail),
      record shpool { avail = shpool.avail - size },
    )

-- `shb` is 0 for NULL.
unfoldable pub rpmsg_virtio_init_shm_pool : ShmPool → ℕ → ℕ → ShmPool
rpmsg_virtio_init_shm_pool shpool shb size =
    if (shb == 0) || (size == 0) then shpool else record { base = shb; size = size; avail = size }

-- RPMSG_BUF_HELD_COUNTER: the high half of `reserved`
abbrev pub held_counter : RpmsgHdr → ℕ
held_counter h = h.reserved % u32 / u16

-- RPMSG_BUF_HELD_INC and RPMSG_BUF_HELD_DEC
unfoldable pub held_inc : RpmsgHdr → RpmsgHdr
held_inc h = record h { reserved = (h.reserved + u16) % u32 }

unfoldable pub held_dec : RpmsgHdr → RpmsgHdr
held_dec h = record h { reserved = (h.reserved + u32 - u16) % u32 }

-- RPMSG_BUF_INDEX: the low half
abbrev pub buf_index : RpmsgHdr → ℕ
buf_index h = h.reserved % u16

unfoldable pub rpmsg_virtio_buf_held_dec_test : RpmsgHdr → Bool × RpmsgHdr
unfolding held_dec
rpmsg_virtio_buf_held_dec_test h =
    if leb (held_counter h) 0
    then (false, h)
    else (not (ltb 0 (held_counter (held_dec h))), held_dec h)
