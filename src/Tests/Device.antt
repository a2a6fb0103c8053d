-- ===== src/Tests/Device.antt =====
-- A device of 64 megabytes, and the operating system that grants it.
use gravity_gpu_project.Prelude.{
  ℕ, ◌+◌, ◌*◌, ◌%◌, ◌^◌, ◌≡◌, inr, refl, none, some, true, List, [], ◌∷◌, arith,
}
use gravity_gpu_project.Ring.Memory.{Memory, Ring, Shm}
use gravity_gpu_project.Ring.Setup.{fresh_header}
use gravity_gpu_project.Ring.Layout.{IsReady}
use gravity_gpu_project.Device.State.{Device}
use gravity_gpu_project.Device.Bar2.{shmem_read, shmem_write}
use gravity_gpu_project.Device.Lifecycle.{Os, realized, realize, reset, sized, set_up}
use gravity_gpu_project.Device.Irq.{Event, raises, writes, run, IsLevel, run-IsLevel}
use gravity_gpu_project.Device.Access.{word_size, shmem_read-write}
use gravity_gpu_project.Device.Start.{Grants, realize-IsReady, reset-IsReady}

abbrev zeros : Memory
zeros = λ a. 0

abbrev shared : Shm
shared = record { header = fresh_header 0x4000000 0x400000 0x40000; byte = zeros }

-- a device with `mb` megabytes
abbrev device_of : ℕ → Device
device_of mb = record {
  shmem_ptr = some shared;
  shmem_size = mb * 1024 * 1024;
  shmem_fd = some 9;
  device_status = 1;
  device_features = 0;
  guest_features = 0;
  guest_status = 0;
  irq_status = 1;
  irq_mask = 0x81;
  display_width = 0;
  display_height = 0;
  display_format = 0;
  debug_reg = 0;
  cmd_count = 0;
  last_error = 0;
  host_socket_fd = none;
  hostmem_mb = mb;
  irq_line = true;
}

abbrev os : Os
os = record { shm_open = some 9; ftruncate = λ fd size. true; mmap = λ fd size. some zeros }

grants : Grants os 9 zeros
grants = record { opens = refl; truncates = λ size. refl; maps = λ size. refl }

realize-IsReady_example :
    (shm : Shm) × (ring : Ring) × (realize os (device_of 64)
      ≡ realized (set_up (sized (device_of 64)) 9 shm))
    × IsReady ((sized (device_of 64)).hostmem_mb * 1024 * 1024) 22 18 shm ring
unfolding sized
realize-IsReady_example =
    realize-IsReady os (device_of 64) 9 zeros grants (omega arith) (omega arith) (omega arith)

reset-IsReady_example :
    (shm : Shm) × (ring : Ring) × ((reset (device_of 64)).shmem_ptr ≡ some shm)
    × IsReady (64 * 1024 * 1024) 22 18 shm ring
    × ((reset (device_of 64)).irq_status ≡ 0)
    × ((reset (device_of 64)).irq_line ≡ true)
    × ((reset (device_of 64)).irq_mask ≡ 0x81)
reset-IsReady_example = reset-IsReady (device_of 64) shared 64 refl refl (omega arith) (omega arith)

abbrev events : List Event
events = raises 128 ∷ writes 0x030 1 4 ∷ []

run-IsLevel_example : IsLevel (run (device_of 64) events)
run-IsLevel_example = run-IsLevel events (device_of 64) (inr (omega arith))

shmem_read-write_example :
    shmem_read (shmem_write zeros 4096 4092 (2 ^ 33 + 7) 4) 4096 4092 4 ≡ (2 ^ 33 + 7) % 256 ^ 4
shmem_read-write_example =
    shmem_read-write zeros 4096 4092 (2 ^ 33 + 7) word_size (omega arith) (omega arith)
