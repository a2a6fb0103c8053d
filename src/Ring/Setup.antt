-- ===== src/Ring/Setup.antt =====
-- `gravity_ring_init_host` and `gravity_ring_attach`.
use gravity_gpu_project.Prelude.{
  ℕ, zero, suc, ◌+◌, ◌*◌, ◌^◌, Option, none, some, if◌then◌else◌, ltb, leb, ◌==◌, not, bit_and,
  add32, sub32, mul32,
}
use gravity_gpu_project.Ring.Memory.{RingHeader, Shm, Ring, Memory}

abbrev pub ring_magic : ℕ
ring_magic = 0x52494e47

abbrev pub ring_header_size : ℕ
ring_header_size = 64

abbrev pub status_ready : ℕ
status_ready = 1

-- `(GRAVITY_PROTOCOL_VERSION_MAJOR << 16) | GRAVITY_PROTOCOL_VERSION_MINOR`
abbrev pub protocol_version : ℕ
protocol_version = 0 * 2 ^ 16 + 1

-- `ring_sz = 1; while (ring_sz < n) ring_sz <<= 1;`, with fuel: `none` means that the loop is still
-- running.
unfoldable pub double_until : ℕ → ℕ → ℕ → Option ℕ
double_until zero ring_sz n = none
double_until (suc fuel) ring_sz n =
    let rest = double_until fuel (mul32 ring_sz 2) n in if ltb ring_sz n then rest else some ring_sz

unfoldable pub round_up : ℕ → ℕ → Option ℕ
unfolding double_until
round_up fuel n = double_until fuel 1 n

pub data InitResult : Type 0 where
  hangs : InitResult
  failed : InitResult
  done : Shm → InitResult

-- the header that a region of `total` bytes gets
unfoldable pub fresh_header : ℕ → ℕ → ℕ → RingHeader
fresh_header total cmd_size comp_size =
    let comp_offset = add32 ring_header_size cmd_size in
    let data_offset = add32 comp_offset comp_size in
    record {
      magic = ring_magic;
      version = protocol_version;
      cmd_ring_offset = ring_header_size;
      cmd_ring_size = cmd_size;
      comp_ring_offset = comp_offset;
      comp_ring_size = comp_size;
      data_region_offset = data_offset;
      data_region_size = sub32 total data_offset;
      cmd_head = 0;
      cmd_tail = 0;
      comp_head = 0;
      comp_tail = 0;
      status = status_ready;
    }

-- what follows the two rounding loops; `memset` clears the region up to `total`
unfoldable pub lay_out : Memory → ℕ → ℕ → ℕ → InitResult
unfolding fresh_header
lay_out m total cmd_size comp_size =
    let data_offset = add32 (add32 ring_header_size cmd_size) comp_size in
    if leb total data_offset
    then failed
    else done (record {
      header = fresh_header total cmd_size comp_size;
      byte = λ a. if ltb a total then 0 else m a;
    })

-- for at most `fuel` rounds of either loop
unfoldable pub init_host : ℕ → Memory → ℕ → ℕ → ℕ → InitResult
init_host fuel m total cmd_ring_size comp_ring_size = elim (round_up fuel cmd_ring_size) [
  | none ↦ hangs
  | some cmd_size ↦ elim (round_up fuel comp_ring_size) [
    | none ↦ hangs
    | some comp_size ↦ lay_out m total cmd_size comp_size
  ]
]

-- `none` stands for the result -1
unfoldable pub attach : Shm → Option Ring
attach shm =
    let hdr = shm.header in
    if not (hdr.magic == ring_magic)
    then none
    else if bit_and hdr.status status_ready == 0
    then none
    else if not (bit_and hdr.cmd_ring_size (sub32 hdr.cmd_ring_size 1) == 0)
    then none
    else some (record {
      cmd_ring = hdr.cmd_ring_offset;
      comp_ring = hdr.comp_ring_offset;
      data_region = hdr.data_region_offset;
      cmd_ring_size = hdr.cmd_ring_size;
      cmd_ring_mask = sub32 hdr.cmd_ring_size 1;
      comp_ring_size = hdr.comp_ring_size;
      comp_ring_mask = sub32 hdr.comp_ring_size 1;
      data_region_size = hdr.data_region_size;
      data_alloc_offset = 0;
    })
