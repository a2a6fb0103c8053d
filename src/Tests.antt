-- ===== src/Tests.antt =====
-- Concrete runs of the code, at which the hypotheses of the theorems hold.
mod Ring
mod Region
mod Tracker
mod Formats
mod Device
mod Translate
mod Vulkan
mod Commands
mod Commit
mod Daemon
mod Main
mod Guest
