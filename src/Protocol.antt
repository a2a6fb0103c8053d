-- ===== src/Protocol.antt =====
-- The wire protocol: protocol/include/gravity_protocol.h and protocol/src/gravity_protocol.c.
pub mod Opcode
pub mod Names
pub mod Header
