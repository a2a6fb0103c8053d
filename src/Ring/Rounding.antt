-- ===== src/Ring/Rounding.antt =====
-- The loop of `gravity_ring_init_host` that rounds a size up to a power of two.
use native.Mathlib.Nat.{pow-suc, one-le-pow}
use gravity_gpu_project.Prelude.{
  ℕ, zero, suc, ◌+◌, ◌^◌, ◌≤◌, ◌<◌, ◌≡◌, refl, none, some, arith, ltb, mul32, Bool-cases, dec_lt,
  inl, inr, ltb→lt, lt→ltb,
}
use gravity_gpu_project.Prelude.Mod.{le_of_pow}
use gravity_gpu_project.Ring.Setup.{double_until, round_up}

-- `2 ^ j` is the least power of two that is at least `n`
pub record RoundsTo (n j : ℕ) : Type 0 where
  pub enough : n ≤ 2 ^ j
  pub least : (i : ℕ) → n ≤ 2 ^ i → j ≤ i

below : (i k n : ℕ) → 2 ^ i < n → n ≤ 2 ^ k → i < k
below i k n h p = elim (dec_lt i k) [
  | yes q ↦ q
  | no q ↦ absurd (omega (arith, le_of_pow k i (omega arith)))
]

doubled : (i : ℕ) → i < 31 → mul32 (2 ^ i) 2 ≡ 2 ^ suc i
doubled i h = omega (arith, pow-suc 2 i, le_of_pow (suc i) 31 h)

-- the loop from `2 ^ i` on, with fuel for every doubling up to `2 ^ 31`
double_until-RoundsTo :
    (fuel i n : ℕ)
    → n ≤ 2 ^ 31
    → i ≤ 31
    → 32 ≤ fuel + i
    → ((k : ℕ) → n ≤ 2 ^ k → i ≤ k)
    → (j : ℕ) × (double_until fuel (2 ^ i) n ≡ some (2 ^ j)) × RoundsTo n j × (j ≤ 31)
unfolding double_until
double_until-RoundsTo zero i n h hi hf low = absurd (omega arith)
double_until-RoundsTo (suc fuel) i n h hi hf low = elim (Bool-cases (ltb (2 ^ i) n)) [
  | inl more ↦
      let lt : i < 31 = below i 31 n (ltb→lt _ _ more) h in
      let (j, e, r, small) =
        double_until-RoundsTo fuel (suc i) n h lt (omega arith)
          (λ k p. below i k n (ltb→lt _ _ more) p) in
      (j, rw (more, doubled i lt) e, r, small)
  | inr enough ↦ (i, rw enough, record { enough = ground arith; least = low }, hi)
]

-- For a size of at most 2^31, the rounding loop of `gravity_ring_init_host` ends within 32
-- rounds, at the least power of two that is at least the size.
pub round_up-RoundsTo :
    (fuel n : ℕ)
    → n ≤ 2 ^ 31
    → 32 ≤ fuel
    → (j : ℕ) × (round_up fuel n ≡ some (2 ^ j)) × RoundsTo n j × (j ≤ 31)
unfolding round_up
round_up-RoundsTo fuel n h hf =
    double_until-RoundsTo fuel 0 n h (omega arith) (omega arith) (λ k p. omega arith)

zero_hangs : (fuel n : ℕ) → 2 ^ 31 < n → double_until fuel 0 n ≡ none
unfolding double_until
zero_hangs zero n h = refl
zero_hangs (suc fuel) n h = rw (lt→ltb 0 n (omega arith)) (zero_hangs fuel n h)

double_until_hangs : (fuel i n : ℕ) → 2 ^ 31 < n → i ≤ 31 → double_until fuel (2 ^ i) n ≡ none
unfolding double_until
double_until_hangs zero i n h hi = refl
double_until_hangs (suc fuel) i n h hi = elim (dec_lt i 31) [
  | yes p ↦
      rw (lt→ltb (2 ^ i) n (omega (arith, le_of_pow i 31 hi)), doubled i p)
        (double_until_hangs fuel (suc i) n h p)
  | no p ↦ let e : i ≡ 31 = omega arith in rw (e, lt→ltb (2 ^ 31) n h) (zero_hangs fuel n h)
]

-- Above 2^31 the loop never ends: the size wraps to 0 and stays there.
pub round_up_hangs : (fuel n : ℕ) → 2 ^ 31 < n → round_up fuel n ≡ none
unfolding round_up
round_up_hangs fuel n h = double_until_hangs fuel 0 n h (omega arith)

-- There is one such exponent.
pub RoundsTo-unique : {n i j : ℕ} → RoundsTo n i → RoundsTo n j → i ≡ j
RoundsTo-unique r s = omega (arith, r.least _ s.enough, s.least _ r.enough)

-- A power of two is its own rounding.
pub power_RoundsTo : (j : ℕ) → RoundsTo (2 ^ j) j
power_RoundsTo j = record { enough = omega arith; least = λ i h. least_power i h }
  where
    least_power : (i : ℕ) → 2 ^ j ≤ 2 ^ i → j ≤ i
    least_power i h = elim (dec_lt i j) [
      | yes p ↦
          absurd (omega (arith, le_of_pow (suc i) j (omega arith), pow-suc 2 i, one-le-pow i 2))
      | no p ↦ omega arith
    ]
