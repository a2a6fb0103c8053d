-- ===== src/Tracker/Probe.antt =====
-- The two probing loops of the tracker, one round after another.
use gravity_gpu_project.Prelude.{
  ℕ, zero, suc, ◌+◌, ◌<◌, ◌≡◌, ◌≢◌, refl, ap, ◌∙◌, none, some, Bool, true, false, ◌&&◌, arith, ◌==◌,
  add32, u32_max, ℕ_discrete,
}
use gravity_gpu_project.Prelude.Bits.{bit_and-low_ones}
use gravity_gpu_project.Tracker.Table.{Tracker, find_slot, empty_slot, slot, hash_size, hash_handle}

pub slot-lt : (handle probe : ℕ) → slot handle probe < hash_size
unfolding slot
slot-lt handle probe = omega (arith, bit_and-low_ones (add32 (hash_handle handle) probe) 12)

-- What a successful search has found.
pub record Found (t : Tracker) (handle s idx : ℕ) : Type 0 where
  pub at_slot : t.hash_table s ≡ idx
  pub not_empty : idx ≢ u32_max
  pub used : (t.entries idx).in_use ≡ true
  pub same : (t.entries idx).handle ≡ handle
  pub in_table : s < hash_size

pub find_slot-Found :
    (t : Tracker) (handle n probe : ℕ) {s idx : ℕ}
    → find_slot t handle n probe ≡ some (s, idx)
    → Found t handle s idx
unfolding find_slot
find_slot-Found t handle zero probe e = cc
find_slot-Found t handle (suc n) probe {s} {idx} e =
    ground (arith, find_slot-Found t handle n (probe + 1) {s = s} {idx = idx}, slot-lt handle probe)

pub empty_slot-vacant :
    (t : Tracker) (handle n probe : ℕ) {s : ℕ}
    → empty_slot t handle n probe ≡ some s
    → (t.hash_table s ≡ u32_max) × (s < hash_size)
unfolding empty_slot
empty_slot-vacant t handle zero probe e = cc
empty_slot-vacant t handle (suc n) probe {s} e =
    ground (arith, empty_slot-vacant t handle n (probe + 1) {s = s}, slot-lt handle probe)

-- an entry that the search accepts
abbrev pub matches : Tracker → ℕ → ℕ → Bool
matches t handle idx = (t.entries idx).in_use && ((t.entries idx).handle == handle)

-- One round of the search.
pub find_slot_end :
    (t : Tracker) (handle n probe : ℕ)
    → t.hash_table (slot handle probe) ≡ u32_max
    → find_slot t handle (suc n) probe ≡ none
unfolding find_slot
find_slot_end t handle n probe e = ground arith

pub find_slot_hit :
    (t : Tracker) (handle n probe : ℕ) {idx : ℕ}
    → t.hash_table (slot handle probe) ≡ idx
    → idx ≢ u32_max
    → matches t handle idx ≡ true
    → find_slot t handle (suc n) probe ≡ some (slot handle probe, idx)
unfolding find_slot
find_slot_hit t handle n probe {idx} e ne m = rw e (ground arith)

pub find_slot_next :
    (t : Tracker) (handle n probe : ℕ) {idx : ℕ}
    → t.hash_table (slot handle probe) ≡ idx
    → idx ≢ u32_max
    → matches t handle idx ≡ false
    → find_slot t handle (suc n) probe ≡ find_slot t handle n (probe + 1)
unfolding find_slot
find_slot_next t handle n probe {idx} e ne m = rw e (ground arith)

pub find_slot_taken :
    (t : Tracker) (handle n probe : ℕ)
    → t.hash_table (slot handle probe) ≢ u32_max
    → find_slot t handle (suc n) probe ≡ none
    → (find_slot t handle n (probe + 1) ≡ none)
      × (matches t handle (t.hash_table (slot handle probe)) ≡ false)
unfolding find_slot
find_slot_taken t handle n probe ne f = ground arith

-- Where the search found nothing and the inserting loop an empty slot, the search finds whatever
-- matching entry is put there, if the other slots and entries stay.
module _ (t t' : Tracker) (handle idx s : ℕ) (ne : idx ≢ u32_max) (new : t'.hash_table s ≡ idx)
    (kept : (r : ℕ) → r ≢ s → t'.hash_table r ≡ t.hash_table r)
    (match : matches t' handle idx ≡ true)
    (same : (j : ℕ) → j ≢ idx → t'.entries j ≡ t.entries j) where
  taken_slot :
      (r : ℕ)
      → t.hash_table s ≡ u32_max
      → t.hash_table r ≢ u32_max
      → t'.hash_table r ≡ t.hash_table r
  taken_slot r vacant taken = kept r (λ e. taken (ap t.hash_table e ∙ vacant))

  pub find_slot_inserted :
      (n probe : ℕ)
      → find_slot t handle n probe ≡ none
      → empty_slot t handle n probe ≡ some s
      → (r : ℕ) × (find_slot t' handle n probe ≡ some (r, idx))
  unfolding empty_slot
  find_slot_inserted zero probe f e = cc
  find_slot_inserted (suc n) probe f e =
      elim (ℕ_discrete (t.hash_table (slot handle probe)) u32_max) [
        | yes vacant ↦
            let at : slot handle probe ≡ s = ground arith in
            (
              slot handle probe,
              find_slot_hit t' handle n probe (ap t'.hash_table at ∙ new) ne match,
            )
        | no taken ↦
            let later : empty_slot t handle n (probe + 1) ≡ some s = ground arith in
            let here =
              taken_slot (slot handle probe) (empty_slot-vacant t handle n (probe + 1) later).0
                taken in
            elim (ℕ_discrete (t.hash_table (slot handle probe)) idx) [
              | yes self ↦
                  (slot handle probe, find_slot_hit t' handle n probe (here ∙ self) ne match)
              | no another ↦
                  let (r, found) =
                    find_slot_inserted n (probe + 1) (find_slot_taken t handle n probe taken f).0
                      later in
                  (
                    r,
                    find_slot_next t' handle n probe here taken
                          (rw (same _ another) (find_slot_taken t handle n probe taken f).1)
                        ∙ found,
                  )
            ]
      ]

-- A search that found an entry finds it again if the filled slots stay, an unused entry is given to
-- another handle and the other entries stay.
module _ (t t' : Tracker) (handle idx : ℕ)
    (kept : (r : ℕ) → t.hash_table r ≢ u32_max → t'.hash_table r ≡ t.hash_table r)
    (free : (t.entries idx).in_use ≡ false) (foreign : matches t' handle idx ≡ false)
    (same : (j : ℕ) → j ≢ idx → t'.entries j ≡ t.entries j) where
  pub find_slot_kept :
      (n probe : ℕ) {r j : ℕ}
      → find_slot t handle n probe ≡ some (r, j)
      → find_slot t' handle n probe ≡ some (r, j)
  unfolding find_slot
  find_slot_kept zero probe f = cc
  find_slot_kept (suc n) probe {r} {j} f = ground (
    arith,
    kept (slot handle probe),
    same (t.hash_table (slot handle probe)),
    find_slot_kept n (probe + 1) {r = r} {j = j},
  )

-- Clearing the slot and the entry at which a handle is found ends the search for the handle.
module _ (t t' : Tracker) (handle s idx : ℕ) (cleared : t'.hash_table s ≡ u32_max)
    (kept : (r : ℕ) → r ≢ s → t'.hash_table r ≡ t.hash_table r)
    (freed : (t'.entries idx).in_use ≡ false)
    (same : (j : ℕ) → j ≢ idx → t'.entries j ≡ t.entries j) where
  pub find_slot_cleared :
      (n probe : ℕ)
      → find_slot t handle n probe ≡ some (s, idx)
      → find_slot t' handle n probe ≡ none
  unfolding find_slot
  find_slot_cleared zero probe f = refl
  find_slot_cleared (suc n) probe f = ground (
    arith,
    kept (slot handle probe),
    same (t.hash_table (slot handle probe)),
    find_slot_cleared n (probe + 1),
  )
