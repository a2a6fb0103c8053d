-- ===== src/Device/State.antt =====
-- `GravityGPUState` and the constants of qemu-patches/hw/display/gravity-gpu.h. Left out are QEMU's own
-- objects (the regions, the notifier) and the paths; `irq_line` is what `pci_set_irq` was last given.
use gravity_gpu_project.Prelude.{ℕ, ◌*◌, ◌^◌, Bool, Option}
use gravity_gpu_project.Ring.Memory.{Shm}

-- A descriptor or a pointer that is not set is `none`.
pub record Device : Type 0 where
  pub shmem_ptr : Option Shm
  pub shmem_size : ℕ
  pub shmem_fd : Option ℕ
  pub device_status : ℕ
  pub device_features : ℕ
  pub guest_features : ℕ
  pub guest_status : ℕ
  pub irq_status : ℕ
  pub irq_mask : ℕ
  pub display_width : ℕ
  pub display_height : ℕ
  pub display_format : ℕ
  pub debug_reg : ℕ
  pub cmd_count : ℕ
  pub last_error : ℕ
  pub host_socket_fd : Option ℕ
  pub hostmem_mb : ℕ
  pub irq_line : Bool

-- the registers of BAR0
pub data Register : Type 0 where
  reg_magic reg_version reg_device_status reg_features reg_shmem_size_lo : Register
  reg_shmem_size_hi reg_doorbell reg_irq_status reg_irq_mask reg_guest_features : Register
  reg_guest_status reg_display_width reg_display_height reg_display_format : Register
  reg_display_stride reg_debug reg_cmd_count reg_error_code : Register

abbrev pub address : Register → ℕ
address reg_magic = 0x000
address reg_version = 0x004
address reg_device_status = 0x008
address reg_features = 0x00c
address reg_shmem_size_lo = 0x010
address reg_shmem_size_hi = 0x014
address reg_doorbell = 0x020
address reg_irq_status = 0x030
address reg_irq_mask = 0x034
address reg_guest_features = 0x040
address reg_guest_status = 0x044
address reg_display_width = 0x050
address reg_display_height = 0x054
address reg_display_format = 0x058
address reg_display_stride = 0x05c
address reg_debug = 0x0f0
address reg_cmd_count = 0x0f4
address reg_error_code = 0x0f8

-- GRAVITY_PROTOCOL_MAGIC
abbrev pub protocol_magic : ℕ
protocol_magic = 0x47525659

-- GRAVITY_STATUS_READY
abbrev pub device_ready : ℕ
device_ready = 1

-- RING_BUFFER | SHADER_MSL | COMPUTE | BLIT | DISPLAY
abbrev pub offered_features : ℕ
offered_features = 0x5b

abbrev pub irq_cmd_complete : ℕ
irq_cmd_complete = 1

abbrev pub irq_error : ℕ
irq_error = 2 ^ 7

abbrev pub default_shmem_size : ℕ
default_shmem_size = 512 * 1024 * 1024

abbrev pub default_cmd_ring_size : ℕ
default_cmd_ring_size = 4 * 1024 * 1024

abbrev pub default_comp_ring_size : ℕ
default_comp_ring_size = 256 * 1024
