-- ===== src/Payload.antt =====
-- The payloads of the commands, each read from the bytes of the command buffer at the offsets of its
-- packed struct: protocol/include/gravity_protocol.h.
pub mod Load
pub mod System
pub mod Create
pub mod Pipeline
pub mod Pass
pub mod Render
pub mod Encode
