-- ===== src/Rpmsg.antt =====
-- openamp/openamp/rpmsg/rpmsg.c, rpmsg_internal.h and include/openamp/rpmsg.h: endpoints, their
-- addresses and the calls of the message interface.
pub mod State
pub mod Address
pub mod Endpoint
pub mod Send
pub mod Valid
pub mod Unique
pub mod Created
pub mod Lookup
pub mod Samples
mod Tests
