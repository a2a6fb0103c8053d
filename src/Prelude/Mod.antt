-- ===== src/Prelude/Mod.antt =====
-- Remainders by a ring size: what 32-bit wrap-around leaves of a ring index, and when two indices
-- of a ring differ.
use Prim.Native.Nat.{ℕ, zero, suc, ◌+◌, ◌-◌, ◌%◌, ◌^◌, ◌≤◌, ◌<◌, ◌∣◌}
use mathlib.Core.Path.{◌≡◌, ◌∙◌, ap, sym}
use mathlib.Core.Logic.{◌≢◌}
use native.Mathlib.Nat.{
  mod-eq_of_lt, pow-le-pow_right, mod-eq-sub-mod, mod-add-mod, mod-mod_of_dvd, dvd_refl, dvd_trans,
  dvd-mul_right, pow-suc, mod-lt,
}
use native.Mathlib.Decide.{dec_lt}
use native.Mathlib.Omega.{arith}

pub pow-dvd-pow : (i j : ℕ) → i ≤ j → 2 ^ i ∣ 2 ^ j
pow-dvd-pow i zero h = let e : i ≡ 0 = omega arith in rw e (dvd_refl 1)
pow-dvd-pow i (suc j) h = elim (dec_lt j i) [
  | yes p ↦ let e : i ≡ suc j = omega arith in rw e (dvd_refl (2 ^ suc j))
  | no p ↦ dvd_trans (2 ^ i) (pow-dvd-pow i j (omega arith)) (rw pow-suc (dvd-mul_right (2 ^ j) 2))
]

pub le_of_pow : (i j : ℕ) → i ≤ j → 2 ^ i ≤ 2 ^ j
le_of_pow i j h = pow-le-pow_right (omega arith) h

-- Reducing a 32-bit sum once more by a power of two forgets that it has wrapped.
pub mod-word-mod : (k x : ℕ) → k ≤ 32 → x % 2 ^ 32 % 2 ^ k ≡ x % 2 ^ k
mod-word-mod k x h = mod-mod_of_dvd (2 ^ k) x (pow-dvd-pow k 32 h)

-- `(a + d) % n` for `a` and `d` below `n`.
pub add-mod_small : (a d n : ℕ) → a < n → d < n → a + d < n → (a + d) % n ≡ a + d
add-mod_small a d n ha hd h = mod-eq_of_lt h

pub add-mod_wrap : (a d n : ℕ) → a < n → d < n → n ≤ a + d → (a + d) % n ≡ a + d - n
add-mod_wrap a d n ha hd h =
    mod-eq-sub-mod {n = a + d} {m = n} h ∙ mod-eq_of_lt {n = a + d - n} {m = n} (omega arith)

-- Two positions less than `n` apart stand at different indices of a ring of `n`.
pub mod-ne_of_close : (x d n : ℕ) → 0 < d → d < n → x % n ≢ (x + d) % n
mod-ne_of_close x d n pos small e = elim (dec_lt (x % n + d) n) [
  | yes p ↦ omega (arith, mod-add-mod x n d, mod-eq_of_lt p)
  | no p ↦ omega (
    arith,
    mod-add-mod x n d,
    mod-lt x {m = n} (omega arith),
    add-mod_wrap (x % n) d n (mod-lt x (omega arith)) small (omega arith),
  )
]

-- A position of a ring of `n` is reached from `h` by one distance below `n` only.
pub mod_inj_of_close : (h u v n : ℕ) → u < n → v < n → (h + u) % n ≡ (h + v) % n → u ≡ v
mod_inj_of_close h u v n hu hv e = elim (dec_lt u v) [
  | yes p ↦ absurd (
      mod-ne_of_close (h + u) (v - u) n (omega arith) (omega arith)
        (e ∙ ap (λ x. x % n) (omega arith)))
  | no p ↦ elim (dec_lt v u) [
    | yes q ↦ absurd (
        mod-ne_of_close (h + v) (u - v) n (omega arith) (omega arith)
          (sym e ∙ ap (λ x. x % n) (omega arith)))
    | no q ↦ omega arith
  ]
]
