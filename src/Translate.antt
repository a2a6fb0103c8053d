-- ===== src/Translate.antt =====
-- The daemon's translations of texture properties: host-daemon/src/metal_to_vulkan.c.
pub mod Flags
pub mod Agree
