-- ===== src/Ring/Limits.antt =====
-- Where `gravity_ring_init_host` fails, does not end, or lays out more than there is.
use gravity_gpu_project.Prelude.{ℕ, ◌+◌, ◌^◌, ◌≤◌, ◌<◌, ◌≡◌, ◌∙◌, arith, dec_lt, ltb, if◌then◌else◌}
use gravity_gpu_project.Prelude.Mod.{le_of_pow}
use gravity_gpu_project.Ring.Memory.{Memory, Shm}
use gravity_gpu_project.Ring.Setup.{
  hangs, failed, done, lay_out, init_host, fresh_header, ring_header_size,
}
use gravity_gpu_project.Ring.Rounding.{RoundsTo, round_up_hangs}
use gravity_gpu_project.Ring.Layout.{init_host-lay_out, data_start}

rounds31 : (n : ℕ) → 2 ^ 30 < n → n ≤ 2 ^ 31 → RoundsTo n 31
rounds31 n lo hi = record {
  enough = hi;
  least = λ i h. elim (dec_lt i 31) [
    | yes p ↦ absurd (omega (arith, le_of_pow i 30 (omega arith)))
    | no p ↦ omega arith
  ];
}

-- When both ring sizes round up to at most 2^30 and the total leaves no byte behind the header
-- and the two rings, `gravity_ring_init_host` (with fuel for 32 rounds) fails.
pub init_host-failed :
    (fuel : ℕ) (m : Memory) (total cmd comp a b : ℕ)
    → 32 ≤ fuel
    → RoundsTo cmd a
    → a ≤ 30
    → RoundsTo comp b
    → b ≤ 30
    → total ≤ data_start a b
    → init_host fuel m total cmd comp ≡ failed
unfolding lay_out
init_host-failed fuel m total cmd comp a b hf r ha s hb tight =
    init_host-lay_out fuel m total cmd comp hf r (omega arith) s (omega arith)
    ∙ ground (arith, le_of_pow a 30 ha, le_of_pow b 30 hb)

-- For a command ring of more than 2^31 bytes, the rounding loop of `gravity_ring_init_host` has
-- not ended for any fuel.
pub init_host-hangs :
    (fuel : ℕ) (m : Memory) (total cmd comp : ℕ)
    → 2 ^ 31 < cmd
    → init_host fuel m total cmd comp ≡ hangs
unfolding init_host
init_host-hangs fuel m total cmd comp h = rw (round_up_hangs fuel cmd h, init_host)

-- Two ring sizes above 2^30 and at most 2^31 pass the size check of any region of more than 64
-- bytes and less than 2^32, since their sum wraps: the completion ring that is laid out ends
-- behind the region.
pub init_host-overflow :
    (fuel : ℕ) (m : Memory) (total cmd comp : ℕ)
    → 32 ≤ fuel
    → 2 ^ 30 < cmd
    → cmd ≤ 2 ^ 31
    → 2 ^ 30 < comp
    → comp ≤ 2 ^ 31
    → ring_header_size < total
    → total < 2 ^ 32
    → (shm : Shm) × (init_host fuel m total cmd comp ≡ done shm)
      × (total < shm.header.comp_ring_offset + shm.header.comp_ring_size)
unfolding lay_out fresh_header
init_host-overflow fuel m total cmd comp hf lo hi lo' hi' room small = (
  record {
    header = fresh_header total (2 ^ 31) (2 ^ 31);
    byte = λ c. if ltb c total then 0 else m c;
  },
  init_host-lay_out fuel m total cmd comp {a = 31} {b = 31} hf (rounds31 cmd lo hi) (omega arith)
        (rounds31 comp lo' hi') (omega arith)
      ∙ ground arith,
  omega arith,
)
