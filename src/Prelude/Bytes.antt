-- ===== src/Prelude/Bytes.antt =====
-- Little-endian fields of packed C structs, as the bytes of the buffer that the struct overlays.
use Prim.Native.Nat.{ℕ, ◌+◌, ◌*◌, ◌/◌, ◌%◌}
use mathlib.Core.List.{List, [], ◌∷◌}
use gravity_gpu_project.Prelude.Lists.{get_or}

-- the bytes of a `uint16_t` and of a `uint32_t`
abbrev pub bytes16 : ℕ → List ℕ
bytes16 x = (x % 256) ∷ (x / 256 % 256) ∷ []

abbrev pub bytes32 : ℕ → List ℕ
bytes32 x = (x % 256) ∷ (x / 256 % 256) ∷ (x / 65536 % 256) ∷ (x / 16777216 % 256) ∷ []

-- the field of a struct that overlays `buf`, at byte offset `i`
abbrev pub load16 : List ℕ → ℕ → ℕ
load16 buf i = get_or buf i 0 + 256 * get_or buf (i + 1) 0

abbrev pub load32 : List ℕ → ℕ → ℕ
load32 buf i = load16 buf i + 65536 * load16 buf (i + 2)
