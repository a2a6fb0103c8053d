-- ===== src/Guest.antt =====
-- The guest's kernel driver: guest-driver/GravityGPU/GravityGPUAccelerator.cpp.
pub mod Driver
pub mod Client
pub mod Handshake
pub mod Ping
