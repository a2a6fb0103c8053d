-- ===== src/Ring/Transfer.antt =====
-- What the copy loops and the moves of the two indices do to a channel: bytes are added behind the
-- bytes held, and taken off before them.
use native.Mathlib.Nat.{add-zero, mod-lt, mod-add-mod, add_assoc, zero-add}
use gravity_gpu_project.Prelude.{
  ℕ, ◌+◌, ◌-◌, ◌%◌, ◌^◌, ◌≤◌, ◌<◌, ◌≡◌, refl, ap, ap₂, ◌∙◌, sym, List, ◌++◌, arith, length, add32,
  bit_and,
}
use gravity_gpu_project.Prelude.Mod.{mod-ne_of_close}
use gravity_gpu_project.Ring.Memory.{Memory, copy_in, copy_out}
use gravity_gpu_project.Ring.Window.{
  window, window_congr, length-window, window-append, window_shift, masked-add32, copy_in-frame,
  window-copy_in, copy_out-window,
}
use gravity_gpu_project.Ring.Channel.{used, IsChannel, held, used-lt, head-add-used, used_unique}

module _ (base k h t : ℕ) (small : k ≤ 31) (hin : h < 2 ^ k) (tin : t < 2 ^ k) where
  abbrev len : ℕ
  len = used (2 ^ k - 1) h t

  module _ (n : ℕ) where
    moved-tail : bit_and (add32 t n) (2 ^ k - 1) ≡ (t + n) % 2 ^ k
    moved-tail = masked-add32 k t n (omega arith)

    moved-tail-lt : bit_and (add32 t n) (2 ^ k - 1) < 2 ^ k
    moved-tail-lt = rw moved-tail (mod-lt (t + n) (omega arith))

    used-enqueue : len + n < 2 ^ k → used (2 ^ k - 1) h (bit_and (add32 t n) (2 ^ k - 1)) ≡ len + n
    used-enqueue room = used_unique k h _ small hin moved-tail-lt (len + n) room (
        ap (λ x. x % 2 ^ k) (sym (add_assoc h len n))
        ∙ sym (mod-add-mod (h + len) (2 ^ k) n)
        ∙ ap (λ x. (x + n) % 2 ^ k) (head-add-used k h t small hin tin)
        ∙ sym moved-tail)

  past_tail : (i : ℕ) → (t + i) % 2 ^ k ≡ (h + len + i) % 2 ^ k
  past_tail i =
      ap (λ x. (x + i) % 2 ^ k) (sym (head-add-used k h t small hin tin))
      ∙ mod-add-mod (h + len) (2 ^ k) i

  -- Before the new bytes the ring reads as it did.
  old_bytes :
      (m : Memory) (src : List ℕ)
      → len + length src < 2 ^ k
      → window base (2 ^ k) (copy_in base (2 ^ k - 1) t 0 src m) h 0 len
        ≡ window base (2 ^ k) m h 0 len
  old_bytes m src room =
      window_congr base (2 ^ k) (copy_in base (2 ^ k - 1) t 0 src m) m h 0 len λ j p q.
        copy_in-frame base k (omega arith) src m t 0 _ λ i r s e.
          mod-ne_of_close (h + j) (len + i - j) (2 ^ k) (omega arith) (omega arith) (
            let e' : (h + j) % 2 ^ k ≡ (t + i) % 2 ^ k = omega arith in
            e' ∙ past_tail i ∙ ap (λ x. x % 2 ^ k) (omega arith))

  -- The new bytes stand behind the old ones.
  new_bytes :
      (m : Memory) (src : List ℕ)
      → len + length src < 2 ^ k
      → window base (2 ^ k) (copy_in base (2 ^ k - 1) t 0 src m) h len (length src) ≡ src
  new_bytes m src room =
      ap (λ j. window base (2 ^ k) after h j (length src)) (sym (add-zero len))
      ∙ sym (window_shift base (2 ^ k) after h len 0 (length src))
      ∙ ap (λ x. window base (2 ^ k) after x 0 (length src)) (head-add-used k h t small hin tin)
      ∙ window-copy_in base k (omega arith) src m t 0 (omega arith)
    where
      after : Memory
      after = copy_in base (2 ^ k - 1) t 0 src m

  held-enqueue :
      (m : Memory) (src : List ℕ)
      → len + length src < 2 ^ k
      → held
          (copy_in base (2 ^ k - 1) t 0 src m)
          base
          (2 ^ k)
          (2 ^ k - 1)
          h
          (bit_and (add32 t (length src)) (2 ^ k - 1))
        ≡ held m base (2 ^ k) (2 ^ k - 1) h t ++ src
  held-enqueue m src room = rw (used-enqueue (length src) room) (
      window-append base (2 ^ k) (copy_in base (2 ^ k - 1) t 0 src m) h 0 len (length src)
      ∙ ap₂ ◌++◌ (old_bytes m src room) (
          ap (λ j. window base (2 ^ k) (copy_in base (2 ^ k - 1) t 0 src m) h j (length src))
            (zero-add len)
          ∙ new_bytes m src room))

  moved-head-lt : (n : ℕ) → bit_and (add32 h n) (2 ^ k - 1) < 2 ^ k
  moved-head-lt n = rw (masked-add32 k h n (omega arith)) (mod-lt (h + n) (omega arith))

  used-dequeue : (n : ℕ) → n ≤ len → used (2 ^ k - 1) (bit_and (add32 h n) (2 ^ k - 1)) t ≡ len - n
  used-dequeue n le =
      used_unique k _ t small (moved-head-lt n) tin (len - n)
        (omega (arith, used-lt k h t small hin tin))
        (ap (λ x. (x + (len - n)) % 2 ^ k) (masked-add32 k h n (omega arith))
          ∙ mod-add-mod (h + n) (2 ^ k) (len - n)
          ∙ ap (λ x. x % 2 ^ k) (omega arith)
          ∙ head-add-used k h t small hin tin)

  held-dequeue :
      (m : Memory) (n : ℕ)
      → n ≤ len
      → held m base (2 ^ k) (2 ^ k - 1) h t
        ≡ copy_out base (2 ^ k - 1) h 0 n m
          ++ held m base (2 ^ k) (2 ^ k - 1) (bit_and (add32 h n) (2 ^ k - 1)) t
  held-dequeue m n le =
      rw
        (
          used-dequeue n le,
          copy_out-window base k (omega arith) m h 0 n,
          masked-add32 k h n (omega arith),
        )
        (ap (window base (2 ^ k) m h 0) {y = n + (len - n)} (omega arith)
          ∙ window-append base (2 ^ k) m h 0 n (len - n)
          ∙ ap (λ l. window base (2 ^ k) m h 0 n ++ l)
              (ap (λ j. window base (2 ^ k) m h j (len - n)) {y = n + 0} (omega arith)
                ∙ sym (window_shift base (2 ^ k) m h n 0 (len - n))))

IsChannel-of :
    {h t : ℕ} (k : ℕ) → k ≤ 31 → h < 2 ^ k → t < 2 ^ k → IsChannel (2 ^ k) (2 ^ k - 1) h t
IsChannel-of k small hin tin = record {
  width = k;
  narrow = small;
  size_eq = refl;
  mask_eq = refl;
  head_in = hin;
  tail_in = tin;
}

pub used-lt-size :
    {size mask head tail : ℕ} → IsChannel size mask head tail → used mask head tail < size
used-lt-size {head = head} {tail = tail} v =
    rw (v.size_eq, v.mask_eq) (used-lt v.width head tail v.narrow v.head_in v.tail_in)

module _ (m : Memory) (base : ℕ) {size mask head tail : ℕ} (v : IsChannel size mask head tail) where
  -- Room for `src` given, the writing loop and the new tail append `src` to what the ring holds.
  pub enqueue :
      (src : List ℕ)
      → used mask head tail + length src < size
      → let tail' = bit_and (add32 tail (length src)) mask in
        IsChannel size mask head tail'
        × (used mask head tail' ≡ used mask head tail + length src)
        × (held (copy_in base mask tail 0 src m) base size mask head tail'
            ≡ held m base size mask head tail ++ src)
  enqueue src room =
      let room' = rw (v.size_eq, v.mask_eq) at room in
      rw (v.size_eq, v.mask_eq)
        (
          IsChannel-of v.width v.narrow v.head_in
              (moved-tail-lt base v.width head tail v.narrow v.head_in v.tail_in (length src)),
          used-enqueue base v.width head tail v.narrow v.head_in v.tail_in (length src) room',
          held-enqueue base v.width head tail v.narrow v.head_in v.tail_in m src room',
        )

  -- A head moved over `n` bytes that the ring holds takes those bytes off its front.
  pub dequeue :
      (n : ℕ)
      → n ≤ used mask head tail
      → let head' = bit_and (add32 head n) mask in
        IsChannel size mask head' tail
        × (used mask head' tail ≡ used mask head tail - n)
        × (held m base size mask head tail
            ≡ copy_out base mask head 0 n m ++ held m base size mask head' tail)
  dequeue n le =
      let le' = rw v.mask_eq at le in
      rw (v.size_eq, v.mask_eq)
        (
          IsChannel-of v.width v.narrow
              (moved-head-lt base v.width head tail v.narrow v.head_in v.tail_in n) v.tail_in,
          used-dequeue base v.width head tail v.narrow v.head_in v.tail_in n le',
          held-dequeue base v.width head tail v.narrow v.head_in v.tail_in m n le',
        )

pub length-held :
    (m : Memory) (base : ℕ) {size mask head tail : ℕ}
    → IsChannel size mask head tail
    → length (held m base size mask head tail) ≡ used mask head tail
length-held m base v = length-window base _ m _ 0 _
