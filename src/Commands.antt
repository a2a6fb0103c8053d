-- ===== src/Commands.antt =====
-- The command processor of the daemon: host-daemon/src/cmd_processor.c.
pub mod Host
pub mod Buffer
pub mod Texture
pub mod Simple
pub mod Cmdbuf
pub mod Pass
pub mod Render
pub mod Owned
pub mod Commit
pub mod Bounds
pub mod Overrun
