-- ===== src/Virtqueue.antt =====
-- openamp/openamp/virtio/virtqueue.c and the rings of include/openamp/virtio_ring.h: the queue of
-- buffers between the two cores.
pub mod State
pub mod Layout
pub mod Ring
pub mod Driver
pub mod Device
pub mod Events
pub mod Notify
pub mod Chains
pub mod Loops
pub mod Owner
pub mod Offer
pub mod Reclaim
pub mod Create
pub mod Transfer
pub mod View
pub mod Rings
pub mod Steps
pub mod Start
pub mod Refine
pub mod Samples
mod Tests
