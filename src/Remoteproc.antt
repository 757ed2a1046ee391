-- ===== src/Remoteproc.antt =====
-- openamp/openamp/remoteproc: the resource table of an image (rsc_table_parser.c).
pub mod State
pub mod Life
pub mod Memory
pub mod Elf
pub mod Table
pub mod Find
mod Tests
