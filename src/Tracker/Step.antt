-- ===== src/Tracker/Step.antt =====
-- What an add and a remove do to the well-formed state of the tracker.
use gravity_gpu_project.Prelude.{
  ◌⊎◌, ℕ, ◌+◌, ◌<◌, ◌≡◌, ◌≢◌, refl, ap, ◌∙◌, sym, subst, some, true, false, List, ◌∷◌, arith,
  u32_max, ℕ_discrete, Option-cases, inl, inr,
}
use mathlib.Core.Option.{some-injective}
use gravity_gpu_project.Tracker.Resource.{Entry, ResourceType, blank}
use gravity_gpu_project.Tracker.Table.{
  Tracker, added, removed, empty_slot, insert_index, update, hash_size, max_entries, invalid_handle,
}
use gravity_gpu_project.Tracker.Probe.{Found}
use gravity_gpu_project.Tracker.Free.{
  NotIn, Links, live, IsTracker, live-le, live-update, Links-update, used_ne_free, used-NotIn,
  weight_unused, weight_used, update_ne,
}

-- what `_add` does to a slot of the table
insert_index_cases :
    (t : Tracker) (handle idx s : ℕ)
    → (insert_index t handle idx s ≡ t.hash_table s)
      ⊎ ((insert_index t handle idx s ≡ idx) × (empty_slot t handle hash_size 0 ≡ some s))
unfolding insert_index
insert_index_cases t handle idx s = elim (Option-cases (empty_slot t handle hash_size 0)) [
  | inl e ↦ inl (rw (insert_index, e) refl)
  | inr (r, e) ↦ elim (ℕ_discrete s r) [
    | yes at ↦ inr (rw (insert_index, e) (ground arith), e ∙ ap some (sym at))
    | no away ↦ inl (rw (insert_index, e) (ground arith))
  ]
]

-- The entry that `_add` takes is the first free one; the rest stays free.
module _ {t : Tracker} {idx : ℕ} {rest : List ℕ} (v : IsTracker t (idx ∷ rest)) (handle : ℕ)
    (type : ResourceType) where
  pub head_small : t.free_head < max_entries
  head_small = omega (arith, v.chain.0, v.chain.1)

  pub head_unused : (t.entries t.free_head).in_use ≡ false
  head_unused = ap (λ x. (t.entries x).in_use) v.chain.0 ∙ v.chain.2

  head_apart : NotIn t.free_head rest
  head_apart = subst (λ x. NotIn x rest) (sym v.chain.0) v.chain.3

  head-Links : Links t.entries (t.entries t.free_head).ref_count rest
  head-Links = subst (λ x. Links t.entries (t.entries x).ref_count rest) (sym v.chain.0) v.chain.4

  fresh : Entry
  fresh = record { handle = handle; type = type; ref_count = 1; in_use = true; payload = blank }

  -- an index in use is not the head
  not_head : (s : ℕ) → s < hash_size → t.hash_table s ≢ u32_max → t.hash_table s ≢ t.free_head
  not_head s h ne e =
      used_ne_free (ap (λ x. (t.entries x).in_use) (sym e) ∙ (v.slots s h ne).1) head_unused

  kept :
      (j : ℕ)
      → (j < max_entries) × ((t.entries j).in_use ≡ true)
      → (j < max_entries) × ((update t.entries t.free_head fresh j).in_use ≡ true)
  unfolding fresh
  kept j (small, used) = (small, ground arith)

  added_live :
      live (update t.entries t.free_head fresh) max_entries ≡ live t.entries max_entries + 1
  unfolding fresh
  added_live = omega (
    arith,
    live-update t.entries t.free_head fresh max_entries head_small,
    weight_unused (t.entries t.free_head) head_unused,
  )

  pub added_counts : (added t handle type).entry_count ≡ t.entry_count + 1
  unfolding added
  added_counts =
      omega (arith, v.counted, added_live, live-le (update t.entries t.free_head fresh) max_entries)

  abbrev Origin : ℕ → Type 0
  Origin s =
      (insert_index t handle t.free_head s ≡ t.hash_table s)
      ⊎ ((insert_index t handle t.free_head s ≡ t.free_head)
          × (empty_slot t handle hash_size 0 ≡ some s))

  apart :
      (r s : ℕ)
      → r < hash_size
      → s < hash_size
      → insert_index t handle t.free_head r ≢ u32_max
      → insert_index t handle t.free_head r ≡ insert_index t handle t.free_head s
      → Origin r
      → Origin s
      → r ≡ s
  apart r s p q ne e (inl a) (inl b) = v.once r s p q (λ e. ne (a ∙ e)) (sym a ∙ e ∙ b)
  apart r s p q ne e (inl a) (inr b) = absurd (not_head r p (λ e. ne (a ∙ e)) (sym a ∙ e ∙ b.0))
  apart r s p q ne e (inr a) (inl b) =
      absurd (not_head s q (λ f. ne (e ∙ b ∙ f)) (sym b ∙ sym e ∙ a.0))
  apart r s p q ne e (inr a) (inr b) = some-injective _ _ (sym a.1 ∙ b.1)

  pub added-IsTracker : IsTracker (added t handle type) rest
  unfolding added fresh
  added-IsTracker = record {
    chain = Links-update t.entries _ t.free_head _ rest head_apart head-Links;
    counted =
        omega
          (arith, v.counted, added_live, live-le (update t.entries t.free_head fresh) max_entries);
    slots = λ s h ne. elim (insert_index_cases t handle t.free_head s) [
      | inl old ↦ rw old (kept (t.hash_table s) (v.slots s h (λ e. ne (old ∙ e))))
      | inr (new, _) ↦ rw new (head_small, ground arith)
    ];
    once = λ r s p q ne e.
        apart r s p q ne e (insert_index_cases t handle t.free_head r)
          (insert_index_cases t handle t.free_head s);
  }

module _ {t : Tracker} {free : List ℕ} (v : IsTracker t free) {handle s idx : ℕ}
    (f : Found t handle s idx) where
  filled : t.hash_table s ≢ u32_max
  filled e = f.not_empty (sym f.at_slot ∙ e)

  pub idx_small : idx < max_entries
  idx_small = omega (arith, (v.slots s f.in_table filled).0, f.at_slot)

  idx_apart : NotIn idx free
  idx_apart = used-NotIn t.entries t.free_head idx free f.used v.chain

  freed : Entry
  freed = record (t.entries idx) {
    in_use = false;
    handle = invalid_handle;
    ref_count = t.free_head;
  }

  at_idx : update t.entries idx freed idx ≡ freed
  at_idx = ground arith

  freed-Links : Links (update t.entries idx freed) idx (idx ∷ free)
  unfolding freed
  freed-Links = (
    refl,
    idx_small,
    ap (λ (r : Entry). r.in_use) at_idx,
    idx_apart,
    subst (λ h. Links (update t.entries idx freed) h free)
        (sym (ap (λ (r : Entry). r.ref_count) at_idx))
        (Links-update t.entries t.free_head idx freed free idx_apart v.chain),
  )

  -- a slot that stays filled is another one, and leads to another entry
  others :
      (r : ℕ)
      → r < hash_size
      → update t.hash_table s u32_max r ≢ u32_max
      → (update t.hash_table s u32_max r ≡ t.hash_table r)
        × (t.hash_table r ≢ u32_max)
        × (t.hash_table r ≢ idx)
  others r h ne = elim (ℕ_discrete r s) [
    | yes at ↦ absurd (ne (ground arith))
    | no away ↦
        let same : update t.hash_table s u32_max r ≡ t.hash_table r = ground arith in
        (
          same,
          (λ e. ne (same ∙ e)),
          (λ e. away (v.once r s h f.in_table (λ e. ne (same ∙ e)) (e ∙ sym f.at_slot))),
        )
  ]

  freed_slots :
      (r : ℕ)
      → r < hash_size
      → update t.hash_table s u32_max r ≢ u32_max
      → (update t.hash_table s u32_max r < max_entries)
        × ((update t.entries idx freed (update t.hash_table s u32_max r)).in_use ≡ true)
  freed_slots r h ne =
      let (same, taken, away) = others r h ne in
      let (small, used) = v.slots r h taken in
      rw same (
        small,
        ap (λ (r : Entry). r.in_use) (update_ne t.entries idx _ freed (λ e. away (sym e))) ∙ used,
      )

  removed_live : live (update t.entries idx freed) max_entries + 1 ≡ live t.entries max_entries
  unfolding freed
  removed_live = omega (
    arith,
    live-update t.entries idx freed max_entries idx_small,
    weight_used (t.entries idx) f.used,
  )

  pub removed_counts : (removed t s idx).entry_count + 1 ≡ t.entry_count
  unfolding removed
  removed_counts = omega (arith, v.counted, removed_live, live-le t.entries max_entries)

  pub removed-IsTracker : IsTracker (removed t s idx) (idx ∷ free)
  unfolding removed freed
  removed-IsTracker = record {
    chain = freed-Links;
    counted = omega (arith, v.counted, removed_live, live-le t.entries max_entries);
    slots = freed_slots;
    once = λ r q p h ne e.
        let (same, taken, _) = others r p ne in
        let (same', _, _) = others q h (λ f. ne (e ∙ f)) in
        v.once r q p h taken (sym same ∙ e ∙ same');
  }
