-- ===== src/Tests/Region.antt =====
-- Layouts and the data region at concrete sizes.
use gravity_gpu_project.Prelude.{ℕ, ◌+◌, ◌^◌, ◌≤◌, ◌<◌, ◌≡◌, refl, List, [], ◌∷◌, some, arith}
use gravity_gpu_project.Ring.Memory.{Memory, Ring, Shm}
use gravity_gpu_project.Ring.Setup.{init_host, round_up, done, fresh_header}
use gravity_gpu_project.Ring.Region.{data_write}
use gravity_gpu_project.Ring.Rounding.{RoundsTo, power_RoundsTo, round_up-RoundsTo}
use gravity_gpu_project.Ring.Layout.{IsReady, init_host-IsReady}
use gravity_gpu_project.Ring.Limits.{init_host-overflow}
use gravity_gpu_project.Ring.Blocks.{IsRegion, Wrote, data_write-Wrote}

abbrev zeros : Memory
zeros = λ a. 0

init_host-IsReady_example :
    (shm : Shm) × (ring : Ring) × (init_host 32 zeros 8192 4096 1024 ≡ done shm)
    × IsReady 8192 12 10 shm ring
init_host-IsReady_example =
    init_host-IsReady 32 zeros 8192 4096 1024 12 10 (omega arith) (power_RoundsTo 12) (omega arith)
      (power_RoundsTo 10) (omega arith) (omega arith) (omega arith)

round_up-RoundsTo_example : (j : ℕ) × (round_up 32 5000 ≡ some (2 ^ j)) × RoundsTo 5000 j × (j ≤ 31)
round_up-RoundsTo_example = round_up-RoundsTo 32 5000 (omega arith) (omega arith)

init_host-overflow_example :
    (shm : Shm) × (init_host 32 zeros 4096 (2 ^ 31) (2 ^ 31) ≡ done shm)
    × (4096 < shm.header.comp_ring_offset + shm.header.comp_ring_size)
init_host-overflow_example =
    init_host-overflow 32 zeros 4096 (2 ^ 31) (2 ^ 31) (omega arith) (omega arith) (omega arith)
      (omega arith) (omega arith) (omega arith) (omega arith)

-- a data region of 128 bytes whose mark stands in the middle
abbrev region : Ring
region = record {
  cmd_ring = 64;
  comp_ring = 128;
  data_region = 192;
  cmd_ring_size = 64;
  cmd_ring_mask = 63;
  comp_ring_size = 64;
  comp_ring_mask = 63;
  data_region_size = 128;
  data_alloc_offset = 64;
}

abbrev shared : Shm
shared = record { header = fresh_header 320 64 64; byte = zeros }

region_IsRegion : IsRegion region shared
unfolding fresh_header
region_IsRegion = record {
  start = refl;
  size_small = omega arith;
  end_small = omega arith;
  mark_in = omega arith;
  mark_aligned = refl;
}

abbrev block : List ℕ
block = 1 ∷ 2 ∷ 3 ∷ []

data_write-Wrote_example :
    (off : ℕ) × (ring' : Ring) × (shm' : Shm) × (data_write region shared block
      ≡ some (off, ring', shm'))
    × Wrote region shared block off ring' shm'
data_write-Wrote_example = data_write-Wrote region_IsRegion block (omega arith) (omega arith)
