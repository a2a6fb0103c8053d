-- ===== src/Ring/Region.antt =====
-- The data region: a bump allocator that wraps, and the lookup of an offset.
use gravity_gpu_project.Prelude.{
  ℕ, ◌+◌, ◌-◌, Option, none, some, List, [], ◌∷◌, if◌then◌else◌, ltb, leb, bit_and, add32, u32,
  not32, length,
}
use gravity_gpu_project.Ring.Memory.{Memory, Shm, Ring, store}

-- `memcpy` into the region
unfoldable pub copy_bytes : ℕ → List ℕ → Memory → Memory
copy_bytes a [] m = m
copy_bytes a (x ∷ src) m = copy_bytes (a + 1) src (store m a x)

-- where the next block of `size` bytes goes
unfoldable pub data_offset : Ring → ℕ → ℕ
data_offset ring size =
    if ltb ring.data_region_size (add32 ring.data_alloc_offset size)
    then 0
    else ring.data_alloc_offset

-- the allocation mark after a block that ends at `end`
unfoldable pub next_mark : Ring → ℕ → ℕ
next_mark ring end =
    let mark = bit_and (add32 end 63) (not32 63) in
    if leb ring.data_region_size mark then 0 else mark

-- The list is `data[0..size)`. The result is `*out_offset` with both states; `none` stands for -1.
unfoldable pub data_write : Ring → Shm → List ℕ → Option (ℕ × Ring × Shm)
data_write ring shm src =
    let size = length src in
    let offset = data_offset ring size in
    if ltb ring.data_region_size size
    then none
    else some (
      add32 shm.header.data_region_offset offset,
      record ring { data_alloc_offset = next_mark ring (add32 offset size) },
      record shm { byte = copy_bytes (ring.data_region + offset) src shm.byte },
    )

-- `offset` is 64 bits wide; the local offset is cut to 32. The result is the offset from the base
-- that the C pointer stands for; `none` stands for NULL.
unfoldable pub data_ptr : Ring → Shm → ℕ → Option ℕ
data_ptr ring shm offset =
    let data_start = shm.header.data_region_offset in
    let local_offset = u32 (offset - data_start) in
    if ltb offset data_start
    then none
    else if leb ring.data_region_size local_offset
    then none
    else some (ring.data_region + local_offset)
