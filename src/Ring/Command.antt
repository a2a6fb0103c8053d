-- ===== src/Ring/Command.antt =====
-- The command ring: the guest writes, the host peeks and consumes.
use gravity_gpu_project.Prelude.{
  ℕ, ◌-◌, ◌/◌, Option, none, some, Bool, true, false, ◌||◌, List, if◌then◌else◌, ltb, ◌==◌, bit_and,
  add32, sub32, min, length, load32,
}
use gravity_gpu_project.Protocol.Header.{header_size}
use gravity_gpu_project.Ring.Memory.{Shm, Ring, copy_in, copy_out, overwrite}

unfoldable pub cmd_space : Ring → Shm → ℕ
cmd_space ring shm =
    sub32 (sub32 ring.cmd_ring_size 1)
      (bit_and (sub32 shm.header.cmd_tail shm.header.cmd_head) ring.cmd_ring_mask)

-- The list is `data[0..size)`. `none` stands for the result -1, which leaves the region alone.
unfoldable pub cmd_write : Ring → Shm → List ℕ → Option Shm
unfolding cmd_space
cmd_write ring shm src =
    let size = length src in
    let hdr = shm.header in
    let tail = hdr.cmd_tail in
    let mask = ring.cmd_ring_mask in
    if size == 0 || ltb (ring.cmd_ring_size / 2) size
    then none
    else if ltb (cmd_space ring shm) size
    then none
    else some (record {
      header = record hdr { cmd_tail = bit_and (add32 tail size) mask };
      byte = copy_in ring.cmd_ring mask tail 0 src shm.byte;
    })

unfoldable pub cmd_available : Ring → Shm → ℕ
cmd_available ring shm = bit_and (sub32 shm.header.cmd_tail shm.header.cmd_head) ring.cmd_ring_mask

-- `out_buf` is a list of `buf_size` bytes, and comes back with what the call wrote into it; `true`
-- stands for a result that is not NULL.
unfoldable pub cmd_peek : Ring → Shm → List ℕ → Bool × List ℕ
unfolding cmd_available
cmd_peek ring shm out_buf =
    let avail = cmd_available ring shm in
    let head = shm.header.cmd_head in
    let mask = ring.cmd_ring_mask in
    let buf_size = length out_buf in
    let first =
      overwrite 0 (copy_out ring.cmd_ring mask head 0 (min header_size buf_size) shm.byte)
        out_buf in
    let size = load32 first 4 in
    let rest = copy_out ring.cmd_ring mask head header_size (size - header_size) shm.byte in
    if ltb avail header_size
    then (false, out_buf)
    else if ltb avail size || ltb buf_size size
    then (false, first)
    else (true, overwrite header_size rest first)

unfoldable pub cmd_consume : Ring → Shm → ℕ → Shm
cmd_consume ring shm size =
    let hdr = shm.header in
    record shm {
      header = record hdr { cmd_head = bit_and (add32 hdr.cmd_head size) ring.cmd_ring_mask };
    }
