-- ===== src/RpmsgVirtio.antt =====
-- openamp/openamp/rpmsg/rpmsg_virtio.c: rpmsg messages in the buffers of two virtqueues.
pub mod State
pub mod Buffers
pub mod Send
pub mod Held
pub mod Wait
pub mod Pool
pub mod Recycle
pub mod Receive
pub mod Rx
pub mod Init
pub mod Fill
mod Tests
