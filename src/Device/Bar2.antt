-- ===== src/Device/Bar2.antt =====
-- `gravity_gpu_shmem_read` and `gravity_gpu_shmem_write` on the bytes of the region behind BAR2, on a
-- little-endian host. `shmem_size` is the field of the device.
use gravity_gpu_project.Prelude.{
  ℕ, zero, suc, ◌+◌, ◌*◌, ◌/◌, ◌%◌, if◌then◌else◌, ltb, ◌==◌, u64_mod,
}
use gravity_gpu_project.Ring.Memory.{Memory, store}

-- the `n` bytes from `a` on as a little-endian number, and a number stored there
unfoldable pub load_bytes : Memory → ℕ → ℕ → ℕ
load_bytes m a zero = 0
load_bytes m a (suc n) = m a + 256 * load_bytes m (a + 1) n

unfoldable pub store_bytes : Memory → ℕ → ℕ → ℕ → Memory
store_bytes m a zero val = m
store_bytes m a (suc n) val = store_bytes (store m a (val % 256)) (a + 1) n (val / 256)

unfoldable pub shmem_read : Memory → ℕ → ℕ → ℕ → ℕ
shmem_read m shmem_size addr size =
    if ltb shmem_size ((addr + size) % u64_mod)
    then 0
    else if size == 1
    then load_bytes m addr 1
    else if size == 2
    then load_bytes m addr 2
    else if size == 4
    then load_bytes m addr 4
    else if size == 8
    then load_bytes m addr 8
    else 0

unfoldable pub shmem_write : Memory → ℕ → ℕ → ℕ → ℕ → Memory
shmem_write m shmem_size addr val size =
    if ltb shmem_size ((addr + size) % u64_mod)
    then m
    else if size == 1
    then store_bytes m addr 1 val
    else if size == 2
    then store_bytes m addr 2 val
    else if size == 4
    then store_bytes m addr 4 val
    else if size == 8
    then store_bytes m addr 8 val
    else m
