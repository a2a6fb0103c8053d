-- ===== src/Ring/Memory.antt =====
-- The state that the two sides share (`gravity_ring_header_t` and the bytes behind it), one side's
-- view of it (`gravity_ring_t`), and the two byte loops that every ring operation runs.
use gravity_gpu_project.Prelude.{
  ℕ, zero, suc, ◌+◌, List, [], ◌∷◌, if◌then◌else◌, ◌==◌, bit_and, add32,
}

-- `reserved` is never read.
pub record RingHeader : Type 0 where
  pub magic : ℕ
  pub version : ℕ
  pub cmd_ring_offset : ℕ
  pub cmd_ring_size : ℕ
  pub comp_ring_offset : ℕ
  pub comp_ring_size : ℕ
  pub data_region_offset : ℕ
  pub data_region_size : ℕ
  pub cmd_head : ℕ
  pub cmd_tail : ℕ
  pub comp_head : ℕ
  pub comp_tail : ℕ
  pub status : ℕ

abbrev pub Memory : Type 0
Memory = ℕ → ℕ

pub record Shm : Type 0 where
  pub header : RingHeader
  pub byte : Memory

-- The pointers `cmd_ring`, `comp_ring` and `data_region` are offsets from the base.
pub record Ring : Type 0 where
  pub cmd_ring : ℕ
  pub comp_ring : ℕ
  pub data_region : ℕ
  pub cmd_ring_size : ℕ
  pub cmd_ring_mask : ℕ
  pub comp_ring_size : ℕ
  pub comp_ring_mask : ℕ
  pub data_region_size : ℕ
  pub data_alloc_offset : ℕ

abbrev pub store : Memory → ℕ → ℕ → Memory
store m a v = λ b. if b == a then v else m b

-- `for (i ..) ring[(tail + i) & mask] = src[i]`, from index `i` on
unfoldable pub copy_in : ℕ → ℕ → ℕ → ℕ → List ℕ → Memory → Memory
copy_in ring mask tail i [] m = m
copy_in ring mask tail i (x ∷ src) m =
    copy_in ring mask tail (i + 1) src (store m (ring + bit_and (add32 tail i) mask) x)

-- `for (i ..) dst[i] = ring[(head + i) & mask]`: the `n` bytes from index `i` on
unfoldable pub copy_out : ℕ → ℕ → ℕ → ℕ → ℕ → Memory → List ℕ
copy_out ring mask head i zero m = []
copy_out ring mask head i (suc n) m =
    m (ring + bit_and (add32 head i) mask) ∷ copy_out ring mask head (i + 1) n m

-- `src` written over `buf` from index `i` on; what does not fit is dropped
unfoldable pub overwrite : ℕ → List ℕ → List ℕ → List ℕ
overwrite i src [] = []
overwrite zero [] (b ∷ buf) = b ∷ buf
overwrite zero (x ∷ src) (b ∷ buf) = x ∷ overwrite zero src buf
overwrite (suc i) src (b ∷ buf) = b ∷ overwrite i src buf
