-- ===== src/Ring/Completion.antt =====
-- The completion ring: the host writes, the guest reads.
use gravity_gpu_project.Prelude.{
  ℕ, ◌-◌, Option, none, some, ◌||◌, List, if◌then◌else◌, ltb, bit_and, add32, sub32, min, length,
  load32,
}
use gravity_gpu_project.Protocol.Header.{header_size}
use gravity_gpu_project.Ring.Memory.{Shm, Ring, copy_in, copy_out, overwrite}

-- `none` stands for the result -1.
unfoldable pub comp_write : Ring → Shm → List ℕ → Option Shm
comp_write ring shm src =
    let size = length src in
    let hdr = shm.header in
    let tail = hdr.comp_tail in
    let mask = ring.comp_ring_mask in
    let space =
      sub32 (sub32 ring.comp_ring_size 1)
        (bit_and (sub32 hdr.comp_tail hdr.comp_head) ring.comp_ring_mask) in
    if ltb space size
    then none
    else some (record {
      header = record hdr { comp_tail = bit_and (add32 tail size) mask };
      byte = copy_in ring.comp_ring mask tail 0 src shm.byte;
    })

-- The result of `gravity_ring_comp_read`: 0, -1, or the size of the completion.
pub data ReadResult : Type 0 where
  empty : ReadResult
  invalid : ReadResult
  received : ℕ → ReadResult

-- The result, `out_buf` as the call leaves it, and the region.
unfoldable pub comp_read : Ring → Shm → List ℕ → ReadResult × List ℕ × Shm
comp_read ring shm out_buf =
    let hdr = shm.header in
    let avail = bit_and (sub32 hdr.comp_tail hdr.comp_head) ring.comp_ring_mask in
    let head = hdr.comp_head in
    let mask = ring.comp_ring_mask in
    let buf_size = length out_buf in
    let first =
      overwrite 0 (copy_out ring.comp_ring mask head 0 (min header_size buf_size) shm.byte)
        out_buf in
    let size = load32 first 4 in
    let rest = copy_out ring.comp_ring mask head header_size (size - header_size) shm.byte in
    if ltb avail header_size
    then (empty, out_buf, shm)
    else if ltb avail size || ltb buf_size size
    then (invalid, first, shm)
    else (
      received size,
      overwrite header_size rest first,
      record shm { header = record hdr { comp_head = bit_and (add32 head size) mask } },
    )
