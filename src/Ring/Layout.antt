-- ===== src/Ring/Layout.antt =====
-- What `gravity_ring_init_host` lays out, and what `gravity_ring_attach` makes of it.
use native.Mathlib.Nat.{mod_self, one-le-pow, zero-mod}
use gravity_gpu_project.Prelude.{
  ℕ, ◌+◌, ◌-◌, ◌^◌, ◌≤◌, ◌<◌, ◌≡◌, refl, ap, ◌∙◌, some, [], arith, bit_and, sub32, add32, ltb,
  if◌then◌else◌,
}
use gravity_gpu_project.Prelude.Bits.{bit_and-low_ones}
use gravity_gpu_project.Prelude.Mod.{le_of_pow}
use gravity_gpu_project.Ring.Memory.{Memory, Shm, Ring}
use gravity_gpu_project.Ring.Setup.{
  done, round_up, lay_out, init_host, attach, fresh_header, ring_header_size,
}
use gravity_gpu_project.Ring.Channel.{used, IsChannel, held}
use gravity_gpu_project.Ring.Window.{window}
use gravity_gpu_project.Ring.Valid.{IsValid, cmd_queue, comp_queue}
use gravity_gpu_project.Ring.Rounding.{RoundsTo, round_up-RoundsTo, RoundsTo-unique}

-- the rounded sizes that the loops find
round_up_of :
    (fuel n : ℕ) {j : ℕ} → 32 ≤ fuel → RoundsTo n j → j ≤ 31 → round_up fuel n ≡ some (2 ^ j)
round_up_of fuel n hf r h =
    let (i, e, s, _) = round_up-RoundsTo fuel n (omega (arith, r.enough, le_of_pow _ 31 h)) hf in
    e ∙ ap (λ k. some (2 ^ k)) (RoundsTo-unique s r)

pub init_host-lay_out :
    (fuel : ℕ) (m : Memory) (total cmd comp : ℕ) {a b : ℕ}
    → 32 ≤ fuel
    → RoundsTo cmd a
    → a ≤ 31
    → RoundsTo comp b
    → b ≤ 31
    → init_host fuel m total cmd comp ≡ lay_out m total (2 ^ a) (2 ^ b)
unfolding init_host
init_host-lay_out fuel m total cmd comp hf r ha s hb =
    rw (round_up_of fuel cmd hf r ha, round_up_of fuel comp hf s hb, init_host)

-- where the data region begins
abbrev pub data_start : ℕ → ℕ → ℕ
data_start a b = ring_header_size + 2 ^ a + 2 ^ b

-- The region that `init_host` reports ready: the host and the guest can attach to it; the header,
-- the two rings and the data region follow one another up to the end; both rings are empty.
pub record IsReady (total a b : ℕ) (shm : Shm) (ring : Ring) : Type 0 where
  pub attaches : attach shm ≡ some ring
  pub valid : IsValid ring shm
  pub behind_header : ring.cmd_ring ≡ ring_header_size
  pub cmd_size : ring.cmd_ring_size ≡ 2 ^ a
  pub comp_at : ring.comp_ring ≡ ring_header_size + 2 ^ a
  pub comp_size : ring.comp_ring_size ≡ 2 ^ b
  pub data_at : ring.data_region ≡ data_start a b
  pub data_at_header : shm.header.data_region_offset ≡ ring.data_region
  pub data_to_end : ring.data_region + ring.data_region_size ≡ total
  pub mark_at_start : ring.data_alloc_offset ≡ 0
  pub no_commands : cmd_queue ring shm ≡ []
  pub no_completions : comp_queue ring shm ≡ []

module _ (total a b : ℕ) (ha : a ≤ 30) (hb : b ≤ 30) (room : data_start a b < total)
    (small : total < 2 ^ 32) where
  made : Ring
  made = record {
    cmd_ring = ring_header_size;
    comp_ring = ring_header_size + 2 ^ a;
    data_region = data_start a b;
    cmd_ring_size = 2 ^ a;
    cmd_ring_mask = 2 ^ a - 1;
    comp_ring_size = 2 ^ b;
    comp_ring_mask = 2 ^ b - 1;
    data_region_size = total - data_start a b;
    data_alloc_offset = 0;
  }

  cleared : Memory → Shm
  cleared m = record {
    header = fresh_header total (2 ^ a) (2 ^ b);
    byte = λ c. if ltb c total then 0 else m c;
  }

  bounds : (1 ≤ 2 ^ a) × (2 ^ a ≤ 2 ^ 30) × (1 ≤ 2 ^ b) × (2 ^ b ≤ 2 ^ 30)
  bounds = (
    one-le-pow a 2 (omega arith),
    le_of_pow a 30 ha,
    one-le-pow b 2 (omega arith),
    le_of_pow b 30 hb,
  )

  comp_no_wrap : add32 ring_header_size (2 ^ a) ≡ ring_header_size + 2 ^ a
  comp_no_wrap = omega (arith, bounds)

  cmd_mask : sub32 (2 ^ a) 1 ≡ 2 ^ a - 1
  cmd_mask = omega (arith, bounds)

  comp_mask : sub32 (2 ^ b) 1 ≡ 2 ^ b - 1
  comp_mask = omega (arith, bounds)

  power_test : bit_and (2 ^ a) (2 ^ a - 1) ≡ 0
  power_test = bit_and-low_ones (2 ^ a) a ∙ mod_self (2 ^ a)

  empty_channel : (k : ℕ) → used (2 ^ k - 1) 0 0 ≡ 0
  empty_channel k = bit_and-low_ones 0 k ∙ zero-mod (2 ^ k)

  attach-cleared : (m : Memory) → attach (cleared m) ≡ some made
  unfolding attach made cleared fresh_header
  attach-cleared m = simp (comp_no_wrap, cmd_mask, comp_mask, power_test) (ground (arith, bounds))

  start-IsChannel : (k : ℕ) → k ≤ 30 → IsChannel (2 ^ k) (2 ^ k - 1) 0 0
  start-IsChannel k h = record {
    width = k;
    narrow = omega arith;
    size_eq = refl;
    mask_eq = refl;
    head_in = one-le-pow k 2 (omega arith);
    tail_in = one-le-pow k 2 (omega arith);
  }

  nothing_held : (k base : ℕ) (m : Memory) → held m base (2 ^ k) (2 ^ k - 1) 0 0 ≡ []
  nothing_held k base m = ap (window base (2 ^ k) m 0 0) (empty_channel k)

  cleared-IsReady : (m : Memory) → IsReady total a b (cleared m) made
  unfolding made cleared fresh_header
  cleared-IsReady m = record {
    attaches = attach-cleared m;
    valid = record {
      cmd = start-IsChannel a ha;
      comp = start-IsChannel b hb;
      cmd_before_comp = omega arith;
      comp_before_data = omega arith;
    };
    behind_header = refl;
    cmd_size = refl;
    comp_at = refl;
    comp_size = refl;
    data_at = refl;
    data_at_header = omega (arith, bounds);
    data_to_end = omega arith;
    mark_at_start = refl;
    no_commands = nothing_held a ring_header_size (cleared m).byte;
    no_completions = nothing_held b (ring_header_size + 2 ^ a) (cleared m).byte;
  }

  lay_out-cleared : (m : Memory) → lay_out m total (2 ^ a) (2 ^ b) ≡ done (cleared m)
  unfolding lay_out cleared
  lay_out-cleared m = ground (arith, bounds)

-- When both ring sizes round up to at most 2^30, a data region remains and the total is below
-- 2^32, `gravity_ring_init_host` (with fuel for 32 rounds) succeeds with a region to which
-- `gravity_ring_attach` attaches: the header, the two rings and the data region follow one
-- another up to the end, the region is valid and both queues are empty.
pub init_host-IsReady :
    (fuel : ℕ) (m : Memory) (total cmd comp a b : ℕ)
    → 32 ≤ fuel
    → RoundsTo cmd a
    → a ≤ 30
    → RoundsTo comp b
    → b ≤ 30
    → data_start a b < total
    → total < 2 ^ 32
    → (shm : Shm) × (ring : Ring) × (init_host fuel m total cmd comp ≡ done shm)
      × IsReady total a b shm ring
init_host-IsReady fuel m total cmd comp a b hf r ha s hb room small = (
  cleared total a b ha hb room small m,
  made total a b ha hb room small,
  init_host-lay_out fuel m total cmd comp hf r (omega arith) s (omega arith)
      ∙ lay_out-cleared total a b ha hb room small m,
  cleared-IsReady total a b ha hb room small m,
)
