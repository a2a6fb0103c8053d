-- ===== src/Ring.antt =====
-- The shared-memory transport: protocol/include/gravity_ring.h.
-- The header at offset 0 is a record; every other byte of the region is a value of the function
-- `byte` at its offset from the base, so a C pointer into the region is that offset.
pub mod Memory
pub mod Window
pub mod Channel
pub mod Transfer
pub mod Front
pub mod Queue
pub mod Valid
pub mod Fifo
pub mod Reply
pub mod Rounding
pub mod Layout
pub mod Limits
pub mod Blocks
pub mod Setup
pub mod Command
pub mod Completion
pub mod Region
