-- ===== src/Prelude/Bits.antt =====
-- `x & mask` as arithmetic, for a mask of ones that may be shifted: the ring masks `size - 1` and
-- the alignment masks `~63` and `~255`.
use Prim.Native.Nat.{
  ℕ, zero, suc, ◌+◌, ◌-◌, ◌*◌, ◌/◌, ◌%◌, ◌^◌, ◌≤◌, ◌<◌, min, max, bit_and, bit_or, digits,
  bit_and-bitwise, bit_or-bitwise,
}
use mathlib.Core.Path.{refl, sym, ◌≡◌, ◌∙◌, ap}
use native.Mathlib.Nat.{
  pow-suc, pow-succ', one-le-pow, div-div-eq-div-mul, le_refl, mul_assoc, mod-eq_of_lt, mod-lt,
  div-add-mod, mul-add-mod_self_left, zero-div, zero-mod,
}
use native.Mathlib.Omega.{arith}

-- the low `w` ones, shifted left by `k`
abbrev pub ones_at : ℕ → ℕ → ℕ
ones_at w k = (2 ^ w - 1) * 2 ^ k

ones_at-suc_shift : (w k : ℕ) → ones_at w (suc k) ≡ ones_at w k * 2
ones_at-suc_shift w k = rw (pow-suc, mul_assoc)

ones_at-suc_width : (w : ℕ) → ones_at (suc w) 0 ≡ ones_at w 0 * 2 + 1
ones_at-suc_width w = omega (arith, pow-suc 2 w, one-le-pow w 2)

-- the remainder by `2 m`, one binary digit at a time
mod-two-mul : (a m : ℕ) → 0 < m → a % (m * 2) ≡ a / 2 % m * 2 + a % 2
mod-two-mul a m h =
    ap (λ t. t % (m * 2)) split
    ∙ mul-add-mod_self_left (m * 2) (a / 2 / m) low
    ∙ mod-eq_of_lt (omega (arith, mod-lt (a / 2) h))
  where
    low : ℕ
    low = a / 2 % m * 2 + a % 2

    split : a ≡ m * 2 * (a / 2 / m) + low
    split = omega (arith, ap (λ (t : ℕ). t * 2) (div-add-mod (a / 2) m))

abbrev and_digits : ℕ → ℕ → ℕ → ℕ
and_digits n a b = digits (λ b. 0) min n a b

whole : (a : ℕ) → a / 2 ^ 0 ≡ a
whole a = omega arith

zero_fields : (w k : ℕ) → 0 ≡ 0 / 2 ^ k % 2 ^ w * 2 ^ k
zero_fields w k = rw (zero-div, zero-mod) (omega arith)

-- a mask, halved, and its lowest digit
halve_even : (x m : ℕ) → x ≡ m * 2 → (x / 2 ≡ m) × (x % 2 ≡ 0)
halve_even x m e = omega arith

halve_odd : (x m : ℕ) → x ≡ m * 2 + 1 → (x / 2 ≡ m) × (x % 2 ≡ 1)
halve_odd x m e = omega arith

join :
    (a w k : ℕ)
    → a / 2 / 2 ^ k % 2 ^ w * 2 ^ k * 2 + min (a % 2) 0 ≡ a / 2 ^ suc k % 2 ^ w * 2 ^ suc k
join a w k =
    rw (div-div-eq-div-mul, ← pow-succ')
      (omega (arith, ap (λ (t : ℕ). a / 2 ^ suc k % 2 ^ w * t) (pow-suc 2 k)))

narrow : (a w : ℕ) → a % 2 ^ suc w ≡ a / 2 % 2 ^ w * 2 + a % 2
narrow a w = rw pow-suc (mod-two-mul a (2 ^ w) (one-le-pow w 2 (omega arith)))

-- The native `&` against a shifted mask of ones, along the digits of the left operand.
and_digits-ones_at :
    (n a w k : ℕ) → a ≤ n → and_digits n a (ones_at w k) ≡ a / 2 ^ k % 2 ^ w * 2 ^ k
and_digits-ones_at zero zero w k h = zero_fields w k
and_digits-ones_at zero (suc a) w k h = absurd (omega arith)
and_digits-ones_at (suc n) zero w k h = zero_fields w k
and_digits-ones_at (suc n) (suc a) w (suc k) h =
    let (half, low) = halve_even _ _ (ones_at-suc_shift w k) in
    rw (half, low, and_digits-ones_at n (suc a / 2) w k (omega arith)) (join (suc a) w k)
and_digits-ones_at (suc n) (suc a) zero zero h =
    rw (and_digits-ones_at n (suc a / 2) 0 0 (omega arith)) (omega arith)
and_digits-ones_at (suc n) (suc a) (suc w) zero h =
    let (half, low) = halve_odd _ _ (ones_at-suc_width w) in
    rw (half, low, and_digits-ones_at n (suc a / 2) w 0 (omega arith))
      (rw (whole (suc a), whole (suc a / 2)) (omega (arith, narrow (suc a) w)))

-- `a & mask` for a mask of `w` ones from bit `k` on keeps just those bits of `a`.
pub bit_and-ones_at : (a w k : ℕ) → bit_and a (ones_at w k) ≡ a / 2 ^ k % 2 ^ w * 2 ^ k
bit_and-ones_at a w k = bit_and-bitwise a (ones_at w k) ∙ and_digits-ones_at a a w k (le_refl a)

-- `a & (2^w - 1)` is the remainder by `2^w`.
pub bit_and-low_ones : (a w : ℕ) → bit_and a (2 ^ w - 1) ≡ a % 2 ^ w
bit_and-low_ones a w =
    ap (bit_and a) (omega arith)
    ∙ bit_and-ones_at a w 0
    ∙ omega (arith, ap (λ (t : ℕ). t % 2 ^ w) (whole a))

-- `a & ~63` and `a & ~255` of a word `a` round down to the alignment.
pub bit_and-align64 : (a : ℕ) → a < 2 ^ 32 → bit_and a (2 ^ 32 - 64) ≡ a / 64 * 64
bit_and-align64 a h = bit_and-ones_at a 26 6 ∙ omega arith

pub bit_and-align256 : (a : ℕ) → a < 2 ^ 32 → bit_and a (2 ^ 32 - 256) ≡ a / 256 * 256
bit_and-align256 a h = bit_and-ones_at a 24 8 ∙ omega arith

pub bit_and-zero : (m : ℕ) → bit_and 0 m ≡ 0
bit_and-zero m = bit_and-bitwise 0 m

or_digits-zero : (n a b : ℕ) → a ≤ n → digits (λ c. c) max n a b ≡ 0 → a ≡ 0
or_digits-zero n zero b h e = refl
or_digits-zero zero (suc a) b h e = absurd (omega arith)
or_digits-zero (suc n) (suc a) b h e =
    omega (arith, e, or_digits-zero n (suc a / 2) (b / 2) (omega arith) (omega arith))

-- A bitwise sum is 0 only of a left operand that is.
pub bit_or-zero : (a b : ℕ) → bit_or a b ≡ 0 → a ≡ 0
bit_or-zero a b e = or_digits-zero a a b (le_refl a) (sym (bit_or-bitwise a b) ∙ e)
