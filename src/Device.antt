-- ===== src/Device.antt =====
-- The QEMU device: qemu-patches/hw/display/gravity-gpu.h and gravity-gpu.c.
pub mod State
pub mod Mmio
pub mod Bar2
pub mod Lifecycle
pub mod Registers
pub mod Irq
pub mod Access
pub mod Start
