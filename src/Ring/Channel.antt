-- ===== src/Ring/Channel.antt =====
-- One ring with its two indices, read as a queue of bytes. The command ring and the completion
-- ring are both such channels; the code of their operations is written twice in the source.
use native.Mathlib.Nat.{add-mod, add-mod_right, mod-eq-zero_of_dvd, mod-eq_of_lt, add-zero, mod-mod}
use native.Mathlib.Decide.{dec_le}
use gravity_gpu_project.Prelude.{
  ℕ, ◌+◌, ◌-◌, ◌%◌, ◌^◌, ◌≤◌, ◌<◌, ◌≡◌, ap, ◌∙◌, sym, List, arith, sub32, bit_and, if◌then◌else◌,
  leb,
}
use gravity_gpu_project.Prelude.Bits.{bit_and-low_ones}
use gravity_gpu_project.Prelude.Mod.{mod-word-mod, pow-dvd-pow, le_of_pow, mod_inj_of_close}
use gravity_gpu_project.Ring.Memory.{Memory}
use gravity_gpu_project.Ring.Window.{window}

-- the bytes between the indices, as every operation computes their number
abbrev pub used : ℕ → ℕ → ℕ → ℕ
used mask head tail = bit_and (sub32 tail head) mask

pub record IsChannel (size mask head tail : ℕ) : Type 0 where
  pub width : ℕ
  pub narrow : width ≤ 31
  pub size_eq : size ≡ 2 ^ width
  pub mask_eq : mask ≡ 2 ^ width - 1
  pub head_in : head < 2 ^ width
  pub tail_in : tail < 2 ^ width

-- what the channel holds, oldest byte first
abbrev pub held : Memory → ℕ → ℕ → ℕ → ℕ → ℕ → List ℕ
held m base size mask head tail = window base size m head 0 (used mask head tail)

module _ (k h t : ℕ) (small : k ≤ 31) (hin : h < 2 ^ k) (tin : t < 2 ^ k) where
  pow_le : 2 ^ k ≤ 2 ^ 32
  pow_le = le_of_pow k 32 (omega arith)

  shift : (t + 2 ^ 32 - h) % 2 ^ k ≡ (t + (2 ^ k - h)) % 2 ^ k
  shift =
      sym (add-mod_right (t + 2 ^ 32 - h) (2 ^ k))
      ∙ ap (λ x. x % 2 ^ k) (omega (arith, pow_le))
      ∙ add-mod (t + (2 ^ k - h)) (2 ^ 32) (2 ^ k)
      ∙ ap (λ x. ((t + (2 ^ k - h)) % 2 ^ k + x) % 2 ^ k)
          (mod-eq-zero_of_dvd (2 ^ k) (pow-dvd-pow k 32 (omega arith)))
      ∙ ap (λ x. x % 2 ^ k) (add-zero _)
      ∙ mod-mod _ _

  used-mod : used (2 ^ k - 1) h t ≡ (t + (2 ^ k - h)) % 2 ^ k
  used-mod = bit_and-low_ones (sub32 t h) k ∙ mod-word-mod k (t + 2 ^ 32 - h) (omega arith) ∙ shift

  pub used_cases : used (2 ^ k - 1) h t ≡ (if leb h t then t - h else t + 2 ^ k - h)
  used_cases = elim (dec_le h t) [
    | yes p ↦
        let e : t + (2 ^ k - h) ≡ t - h + 2 ^ k = omega arith in
        used-mod
        ∙ ap (λ x. x % 2 ^ k) e
        ∙ add-mod_right (t - h) (2 ^ k)
        ∙ mod-eq_of_lt {n = t - h} {m = 2 ^ k} (omega arith)
        ∙ ground arith
    | no p ↦ used-mod ∙ mod-eq_of_lt {n = t + (2 ^ k - h)} {m = 2 ^ k} (omega arith) ∙ ground arith
  ]

  pub used-lt : used (2 ^ k - 1) h t < 2 ^ k
  used-lt = ground (arith, used_cases)

  -- the tail stands behind the last byte held
  pub head-add-used : (h + used (2 ^ k - 1) h t) % 2 ^ k ≡ t
  head-add-used = elim (dec_le h t) [
    | yes p ↦
        ap (λ x. x % 2 ^ k) (ground (arith, used_cases)) ∙ mod-eq_of_lt {n = t} {m = 2 ^ k} tin
    | no p ↦
        ap (λ x. x % 2 ^ k) {y = t + 2 ^ k} (ground (arith, used_cases))
        ∙ add-mod_right t (2 ^ k)
        ∙ mod-eq_of_lt {n = t} {m = 2 ^ k} tin
  ]

  -- The number of bytes held is the only distance below the size that leads from head to tail.
  pub used_unique : (u : ℕ) → u < 2 ^ k → (h + u) % 2 ^ k ≡ t → used (2 ^ k - 1) h t ≡ u
  used_unique u lt e = mod_inj_of_close h _ u (2 ^ k) used-lt lt (head-add-used ∙ sym e)
