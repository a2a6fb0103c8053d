-- ===== src/Ring/Window.antt =====
-- Bytes of a ring of `size` places at `base`, read and written round the end.
use native.Mathlib.Nat.{mod-add-mod, add_assoc, add-zero, zero-add}
use gravity_gpu_project.Prelude.{
  ℕ, zero, suc, ◌+◌, ◌-◌, ◌%◌, ◌^◌, ◌≤◌, ◌<◌, ◌≡◌, ◌≢◌, refl, ap, ap₂, ◌∙◌, List, [], ◌∷◌, ◌++◌,
  arith, length, add32, bit_and,
}
use gravity_gpu_project.Prelude.Bits.{bit_and-low_ones}
use gravity_gpu_project.Prelude.Mod.{mod-word-mod, mod-ne_of_close}
use gravity_gpu_project.Ring.Memory.{Memory, store, copy_in, copy_out}

-- the mask and the 32-bit sum together are a remainder by the ring's size
pub masked-add32 : (k t i : ℕ) → k ≤ 32 → bit_and (add32 t i) (2 ^ k - 1) ≡ (t + i) % 2 ^ k
masked-add32 k t i h = bit_and-low_ones (add32 t i) k ∙ mod-word-mod k (t + i) h

store_ne : (m : Memory) (b a v : ℕ) → a ≢ b → store m b v a ≡ m a
store_ne m b a v ne = ground arith

store_eq : (m : Memory) (b a v : ℕ) → b ≡ a → store m b v a ≡ v
store_eq m b a v e = ground arith

module _ (base size : ℕ) where
  -- the place of the `i`-th byte after index `h`
  abbrev pub place : ℕ → ℕ → ℕ
  place h i = base + (h + i) % size

  -- the `n` bytes from the `i`-th after index `h` on
  abbrev pub window : Memory → ℕ → ℕ → ℕ → List ℕ
  window m h i zero = []
  window m h i (suc n) = m (place h i) ∷ window m h (i + 1) n

  pub length-window : (m : Memory) (h i n : ℕ) → length (window m h i n) ≡ n
  length-window m h i zero = refl
  length-window m h i (suc n) = ap suc (length-window m h (i + 1) n)

  pub window_congr :
      (m m' : Memory) (h i n : ℕ)
      → ((j : ℕ) → i ≤ j → j < i + n → m (place h j) ≡ m' (place h j))
      → window m h i n ≡ window m' h i n
  window_congr m m' h i zero same = refl
  window_congr m m' h i (suc n) same =
      ap₂ ◌∷◌ (same i (omega arith) (omega arith))
        (window_congr m m' h (i + 1) n (λ j p q. same j (omega arith) (omega arith)))

  pub window-append :
      (m : Memory) (h i n k : ℕ) → window m h i (n + k) ≡ window m h i n ++ window m h (i + n) k
  window-append m h i zero k = rw (zero-add, add-zero)
  window-append m h i (suc n) k =
      ap (window m h i) {y = suc (n + k)} (omega arith)
      ∙ ap (λ l. m (place h i) ∷ l)
          (window-append m h (i + 1) n k
            ∙ ap (λ j. window m h (i + 1) n ++ window m h j k) (omega arith))

  -- Counting from a later index is counting on.
  pub window_shift :
      (m : Memory) (h u i n : ℕ) → window m ((h + u) % size) i n ≡ window m h (u + i) n
  window_shift m h u i zero = refl
  window_shift m h u i (suc n) =
      ap₂ ◌∷◌
        (ap (λ j. m (base + j)) (mod-add-mod (h + u) size i ∙ ap (λ j. j % size) (add_assoc h u i)))
        (window_shift m h u (i + 1) n ∙ ap (λ j. window m h j n) (omega arith))

module _ (base k : ℕ) (small : k ≤ 32) where
  pub copy_out-window :
      (m : Memory) (h i n : ℕ) → copy_out base (2 ^ k - 1) h i n m ≡ window base (2 ^ k) m h i n
  unfolding copy_out
  copy_out-window m h i zero = refl
  copy_out-window m h i (suc n) =
      ap₂ ◌∷◌ (ap (λ j. m (base + j)) (masked-add32 k h i small)) (copy_out-window m h (i + 1) n)

  -- What the loop does not reach it leaves alone.
  pub copy_in-frame :
      (src : List ℕ) (m : Memory) (t i a : ℕ)
      → ((j : ℕ) → i ≤ j → j < i + length src → a ≢ place base (2 ^ k) t j)
      → copy_in base (2 ^ k - 1) t i src m a ≡ m a
  unfolding copy_in
  copy_in-frame [] m t i a away = refl
  copy_in-frame (x ∷ src) m t i a away =
      copy_in-frame src _ t (i + 1) a (λ j p q. away j (omega arith) (omega arith))
      ∙ store_ne m _ a x (λ e.
        away i (omega arith) (omega arith) (e ∙ ap (λ j. base + j) (masked-add32 k t i small)))

  distinct_places :
      (t i j : ℕ) → i < j → j < i + 2 ^ k → place base (2 ^ k) t i ≢ place base (2 ^ k) t j
  distinct_places t i j p q e =
      mod-ne_of_close (t + i) (j - i) (2 ^ k) (omega arith) (omega arith) (
        let e' : (t + i) % 2 ^ k ≡ (t + j) % 2 ^ k = omega arith in
        e' ∙ ap (λ x. x % 2 ^ k) (omega arith))

  -- The loop's bytes are read back, if they fit the ring.
  pub window-copy_in :
      (src : List ℕ) (m : Memory) (t i : ℕ)
      → length src ≤ 2 ^ k
      → window base (2 ^ k) (copy_in base (2 ^ k - 1) t i src m) t i (length src) ≡ src
  unfolding copy_in
  window-copy_in [] m t i fits = refl
  window-copy_in (x ∷ src) m t i fits =
      ap₂ ◌∷◌
        (copy_in-frame src _ t (i + 1) (place base (2 ^ k) t i)
            (λ j p q. distinct_places t i j (omega arith) (omega arith))
          ∙ store_eq m _ _ x (ap (λ j. base + j) (masked-add32 k t i small)))
        (window-copy_in src _ t (i + 1) (omega arith))
