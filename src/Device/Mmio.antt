-- ===== src/Device/Mmio.antt =====
-- `gravity_gpu_mmio_read`, `gravity_gpu_mmio_write` and `gravity_gpu_raise_irq`. Logging is left out.
use gravity_gpu_project.Prelude.{
  ℕ, ◌+◌, ◌/◌, ◌%◌, ◌^◌, ◌-◌, true, false, if◌then◌else◌, ◌==◌, not, bit_and, bit_or, add32, mul32,
  not32, u32, u64_mod,
}
use gravity_gpu_project.Ring.Setup.{protocol_version}
use gravity_gpu_project.Device.State.{
  Device, protocol_magic, address, reg_magic, reg_version, reg_device_status, reg_features,
  reg_shmem_size_lo, reg_shmem_size_hi, reg_irq_status, reg_irq_mask, reg_display_width,
  reg_display_height, reg_display_format, reg_display_stride, reg_debug, reg_cmd_count,
  reg_error_code, reg_doorbell, reg_guest_features, reg_guest_status,
}

-- The width in bytes of four-byte pixels, aligned to 256 bytes by `& ~255u`.
unfoldable pub stride : ℕ → ℕ
stride width = bit_and (add32 (mul32 width 4) 255) (2 ^ 32 - 256)

unfoldable pub mmio_read : Device → ℕ → ℕ → ℕ
mmio_read d addr size =
    if not (size == 4)
    then 0
    else if addr == address reg_magic
    then protocol_magic
    else if addr == address reg_version
    then protocol_version
    else if addr == address reg_device_status
    then d.device_status
    else if addr == address reg_features
    then d.device_features
    else if addr == address reg_shmem_size_lo
    then u32 d.shmem_size
    else if addr == address reg_shmem_size_hi
    then u32 (d.shmem_size / 2 ^ 32)
    else if addr == address reg_irq_status
    then d.irq_status
    else if addr == address reg_irq_mask
    then d.irq_mask
    else if addr == address reg_display_width
    then d.display_width
    else if addr == address reg_display_height
    then d.display_height
    else if addr == address reg_display_format
    then d.display_format
    else if addr == address reg_display_stride
    then stride d.display_width
    else if addr == address reg_debug
    then d.debug_reg
    else if addr == address reg_cmd_count
    then u32 d.cmd_count
    else if addr == address reg_error_code
    then d.last_error
    else 0

-- a write of the interrupt status: ones clear, and with no bit left the line goes down
unfoldable pub clear_irq : Device → ℕ → Device
clear_irq d val =
    let status = bit_and d.irq_status (not32 (u32 val)) in
    record d { irq_status = status; irq_line = if status == 0 then false else d.irq_line }

-- A write of any other size or address changes nothing.
unfoldable pub mmio_write : Device → ℕ → ℕ → ℕ → Device
mmio_write d addr val size =
    if not (size == 4)
    then d
    else if addr == address reg_doorbell
    then record d { cmd_count = (d.cmd_count + 1) % u64_mod }
    else if addr == address reg_irq_status
    then clear_irq d val
    else if addr == address reg_irq_mask
    then record d { irq_mask = u32 val }
    else if addr == address reg_guest_features
    then record d { guest_features = u32 val }
    else if addr == address reg_guest_status
    then record d { guest_status = u32 val }
    else if addr == address reg_display_width
    then record d { display_width = u32 val }
    else if addr == address reg_display_height
    then record d { display_height = u32 val }
    else if addr == address reg_display_format
    then record d { display_format = u32 val }
    else if addr == address reg_debug
    then record d { debug_reg = u32 val }
    else d

unfoldable pub raise_irq : Device → ℕ → Device
raise_irq d irq_bits =
    let status = bit_or d.irq_status irq_bits in
    record d {
      irq_status = status;
      irq_line = if bit_and status d.irq_mask == 0 then d.irq_line else true;
    }
