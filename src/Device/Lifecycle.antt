-- ===== src/Device/Lifecycle.antt =====
-- `gravity_gpu_realize`, `gravity_gpu_exit` and `gravity_gpu_reset`. What the operating system answers
-- is a parameter; the registration of the two BARs with QEMU is left out.
use gravity_gpu_project.Prelude.{
  ℕ, ◌+◌, ◌*◌, ◌/◌, ◌%◌, Bool, true, false, Option, none, some, if◌then◌else◌, ◌==◌, u32, u64_mod,
}
use gravity_gpu_project.Ring.Memory.{Memory, Shm}
use gravity_gpu_project.Ring.Setup.{InitResult, hangs, failed, done, init_host}
use gravity_gpu_project.Device.State.{
  Device, device_ready, offered_features, irq_cmd_complete, irq_error, default_shmem_size,
  default_cmd_ring_size, default_comp_ring_size,
}

-- The answers of `shm_open` (a descriptor), `ftruncate` (of a descriptor to a size; true for success)
-- and `mmap` (the bytes that the mapping shows). `none` stands for failure.
pub record Os : Type 0 where
  pub shm_open : Option ℕ
  pub ftruncate : ℕ → ℕ → Bool
  pub mmap : ℕ → ℕ → Option Memory

pub data RealizeError : Type 0 where
  shm_open_failed ftruncate_failed mmap_failed ring_failed : RealizeError

-- `stuck` stands for a rounding loop of the ring that is still running.
pub data Realized : Type 0 where
  stuck : Realized
  refused : RealizeError → Device → Realized
  realized : Device → Realized

-- The rings have constant sizes, for which the loops need fewer than 32 rounds.
abbrev pub ring_fuel : ℕ
ring_fuel = 32

unfoldable pub init_ring : Memory → ℕ → InitResult
init_ring m shmem_size =
    init_host ring_fuel m (u32 shmem_size) default_cmd_ring_size default_comp_ring_size

-- the device after the first lines: the size in megabytes, or the default
unfoldable pub sized : Device → Device
sized d =
    let mb = if d.hostmem_mb == 0 then default_shmem_size / (1024 * 1024) else d.hostmem_mb in
    record d { hostmem_mb = mb; shmem_size = mb * 1024 * 1024 % u64_mod }

-- the device state that a successful `realize` sets up
unfoldable pub set_up : Device → ℕ → Shm → Device
set_up d fd shm = record d {
  shmem_ptr = some shm;
  shmem_fd = some fd;
  device_features = offered_features;
  device_status = device_ready;
  guest_status = 0;
  guest_features = 0;
  irq_status = 0;
  irq_mask = irq_cmd_complete + irq_error;
  display_width = 1920;
  display_height = 1080;
  display_format = 80;
  cmd_count = 0;
  last_error = 0;
  debug_reg = 0;
  host_socket_fd = none;
}

-- the device with the region closed
unfoldable pub closed : Device → Device
closed d = record d { shmem_ptr = none; shmem_fd = none }

unfoldable pub realize : Os → Device → Realized
realize os d =
    let s = sized d in
    elim os.shm_open [
      | none ↦ refused shm_open_failed (record s { shmem_fd = none })
      | some fd ↦ elim (os.ftruncate fd s.shmem_size) [
        | false ↦ refused ftruncate_failed (record s { shmem_fd = none })
        | true ↦ elim (os.mmap fd s.shmem_size) [
          | none ↦ refused mmap_failed (closed s)
          | some m ↦ elim (init_ring m s.shmem_size) [
            | hangs ↦ stuck
            | failed ↦ refused ring_failed (closed s)
            | done shm ↦ realized (set_up s fd shm)
          ]
        ]
      ]
    ]

unfoldable pub exit : Device → Device
exit d = record d { host_socket_fd = none; shmem_ptr = none; shmem_fd = none }

-- the device state that `reset` clears
unfoldable pub cleared : Device → Device
cleared d = record d {
  device_status = device_ready;
  guest_status = 0;
  guest_features = 0;
  irq_status = 0;
  cmd_count = 0;
  last_error = 0;
  debug_reg = 0;
}

-- The result of `gravity_ring_init_host` is not looked at.
unfoldable pub reset_ring : Option Shm → ℕ → Device → Device
reset_ring none shmem_size s = s
reset_ring (some shm) shmem_size s = elim (init_ring shm.byte shmem_size) [
  | hangs ↦ s
  | failed ↦ s
  | done shm' ↦ record s { shmem_ptr = some shm' }
]

unfoldable pub reset : Device → Device
reset d = reset_ring d.shmem_ptr d.shmem_size (cleared d)
