-- ===== src/Protocol/Header.antt =====
-- `gravity_cmd_header_t` with `gravity_cmd_init`, and `gravity_cmd_validate`.
use gravity_gpu_project.Prelude.{
  ℕ, ◌^◌, ◌≤◌, ◌<◌, ◌≡◌, ◌↔◌, Bool, true, false, List, ◌++◌, arith, ltb, leb, if◌then◌else◌,
  bytes16, bytes32, load16, load32,
}
use gravity_gpu_project.Protocol.Opcode.{cmd_max}

-- 16 packed bytes
pub record CmdHeader : Type 0 where
  pub opcode : ℕ
  pub flags : ℕ
  pub size : ℕ
  pub sequence : ℕ
  pub fence_id : ℕ

-- `sizeof(gravity_cmd_header_t)`
abbrev pub header_size : ℕ
header_size = 16

-- `gravity_cmd_init`
unfoldable pub cmd_init : ℕ → ℕ → ℕ → CmdHeader
cmd_init opcode size sequence = record {
  opcode = opcode;
  flags = 0;
  size = size;
  sequence = sequence;
  fence_id = 0;
}

-- the bytes of a header, and the header that overlays a buffer
unfoldable pub header_bytes : CmdHeader → List ℕ
header_bytes h =
    bytes16 h.opcode
    ++ (bytes16 h.flags ++ (bytes32 h.size ++ (bytes32 h.sequence ++ bytes32 h.fence_id)))

unfoldable pub load_header : List ℕ → CmdHeader
load_header buf = record {
  opcode = load16 buf 0;
  flags = load16 buf 2;
  size = load32 buf 4;
  sequence = load32 buf 8;
  fence_id = load32 buf 12;
}

-- `gravity_cmd_validate` at a header that is not NULL; `true` stands for the result 0.
unfoldable pub cmd_validate : CmdHeader → ℕ → Bool
cmd_validate h available =
    if ltb available header_size
    then false
    else if ltb h.size header_size
    then false
    else if ltb available h.size
    then false
    else if leb cmd_max h.opcode
    then false
    else true

pub record IsWord (h : CmdHeader) : Type 0 where
  pub opcode16 : h.opcode < 2 ^ 16
  pub flags16 : h.flags < 2 ^ 16
  pub size32 : h.size < 2 ^ 32
  pub sequence32 : h.sequence < 2 ^ 32
  pub fence32 : h.fence_id < 2 ^ 32

-- A command header whose fields fit their widths is read back from its bytes, whatever follows
-- them.
pub load_header-header_bytes :
    (h : CmdHeader) (rest : List ℕ) → IsWord h → load_header (header_bytes h ++ rest) ≡ h
unfolding load_header header_bytes
load_header-header_bytes h rest v = ground arith

-- `gravity_cmd_validate` accepts a header exactly when its size is at least a header, at most the
-- bytes at hand, and its opcode is below the limit.
pub cmd_validate_iff :
    (h : CmdHeader) (n : ℕ)
    → (cmd_validate h n ≡ true) ↔ ((header_size ≤ h.size) × (h.size ≤ n) × (h.opcode < cmd_max))
unfolding cmd_validate
cmd_validate_iff h n = ground arith
