-- ===== src/Device/Registers.antt =====
-- What the guest reads back from BAR0.
use gravity_gpu_project.Prelude.{
  refl, ap, ◌-◌, ℕ, ◌+◌, ◌*◌, ◌/◌, ◌%◌, ◌^◌, ◌≤◌, ◌<◌, ◌≡◌, ◌∙◌, arith, u32, bit_and,
}
use gravity_gpu_project.Prelude.Bits.{bit_and-align256}
use gravity_gpu_project.Device.State.{
  Device, Register, address, reg_magic, reg_version, reg_device_status, reg_features,
  reg_shmem_size_lo, reg_shmem_size_hi, reg_irq_mask, reg_display_width, reg_display_height,
  reg_display_format, reg_debug, reg_error_code,
}
use gravity_gpu_project.Device.Mmio.{mmio_read, mmio_write, clear_irq, stride}

-- the registers that the guest reads and writes, and those that it only reads
pub data Stored : Register → Type 0 where
  irq_mask_is : Stored reg_irq_mask
  width_is : Stored reg_display_width
  height_is : Stored reg_display_height
  format_is : Stored reg_display_format
  debug_is : Stored reg_debug

pub data Fixed : Register → Type 0 where
  magic_is : Fixed reg_magic
  version_is : Fixed reg_version
  status_is : Fixed reg_device_status
  features_is : Fixed reg_features
  size_lo_is : Fixed reg_shmem_size_lo
  size_hi_is : Fixed reg_shmem_size_hi
  error_is : Fixed reg_error_code

-- Each of the five read-write registers of BAR0 reads back the low 32 bits of the value just
-- written.
pub read-write-Stored :
    (d : Device) (val : ℕ) {r : Register}
    → Stored r
    → mmio_read (mmio_write d (address r) val 4) (address r) 4 ≡ u32 val
unfolding mmio_read mmio_write
read-write-Stored d val irq_mask_is = refl
read-write-Stored d val width_is = refl
read-write-Stored d val height_is = refl
read-write-Stored d val format_is = refl
read-write-Stored d val debug_is = refl

-- the fields that no write changes
write_keeps :
    (d : Device) (addr val size : ℕ)
    → ((mmio_write d addr val size).device_status ≡ d.device_status)
      × ((mmio_write d addr val size).device_features ≡ d.device_features)
      × ((mmio_write d addr val size).shmem_size ≡ d.shmem_size)
      × ((mmio_write d addr val size).last_error ≡ d.last_error)
unfolding mmio_write clear_irq
write_keeps d addr val size = ground arith

-- No write to BAR0, of whatever size and to whatever address, changes what a read-only register
-- reads.
pub read-write-Fixed :
    (d : Device) (addr val size : ℕ) {r : Register}
    → Fixed r
    → mmio_read (mmio_write d addr val size) (address r) 4 ≡ mmio_read d (address r) 4
unfolding mmio_read
read-write-Fixed d addr val size magic_is = refl
read-write-Fixed d addr val size version_is = refl
read-write-Fixed d addr val size status_is = (write_keeps d addr val size).0
read-write-Fixed d addr val size features_is = (write_keeps d addr val size).1
read-write-Fixed d addr val size size_lo_is = ap u32 (write_keeps d addr val size).2
read-write-Fixed d addr val size size_hi_is =
    ap (λ n. u32 (n / 2 ^ 32)) (write_keeps d addr val size).2
read-write-Fixed d addr val size error_is = (write_keeps d addr val size).3

-- For a width for which `width * 4 + 255` fits in 32 bits, the stride is a multiple of 256, at
-- least the bytes of a row and less than 256 above them.
pub stride_lem :
    (width : ℕ)
    → width * 4 + 255 < 2 ^ 32
    → (stride width % 256 ≡ 0) × (width * 4 ≤ stride width) × (stride width < width * 4 + 256)
unfolding stride
stride_lem width h =
    let rounds : stride width ≡ (width * 4 + 255) / 256 * 256 =
      ap (λ x. bit_and x (2 ^ 32 - 256)) (omega arith) ∙ bit_and-align256 (width * 4 + 255) h in
    omega (arith, rounds)
