-- ===== src/Vulkan.antt =====
-- Vulkan as the daemon sees it, and its device wrapper: host-daemon/src/vk_device.c and vk_device.h.
pub mod Calls
pub mod Objects
pub mod Memory
pub mod State
pub mod Families
pub mod Gpu
pub mod Init
pub mod Held
pub mod Leak
pub mod Destroy
pub mod Cleanup
pub mod Remains
pub mod Shutdown
