-- ===== src/Tracker/Lookup.antt =====
-- `gravity_resource_tracker_add`, `_get` and `_remove` against one another.
use gravity_gpu_project.Prelude.{
  ℕ, ◌+◌, ◌≡◌, ◌≢◌, ◌∙◌, sym, subst, none, some, true, false, List, ◌∷◌, arith, ◌==◌, u32_max,
}
use gravity_gpu_project.Tracker.Resource.{ResourceType, blank}
use gravity_gpu_project.Tracker.Table.{
  Tracker, add, added, remove, removed, get, count, empty_slot, hash_size, invalid_handle,
}
use gravity_gpu_project.Tracker.Probe.{
  find_slot-Found, matches, find_slot_inserted, find_slot_kept, find_slot_cleared,
}
use gravity_gpu_project.Tracker.Free.{IsTracker, update_ne}
use gravity_gpu_project.Tracker.Step.{
  added-IsTracker, removed-IsTracker, head_small, head_unused, removed_counts, added_counts,
}
use gravity_gpu_project.Tracker.Call.{
  get_of_found, get_of_missing, remove-done, get-found, get-missing, add-done, insert_index_at,
  insert_index_taken, add-inv,
}

-- What a call of `_add` leaves: the entry at `idx` is new and for the handle, no other one changed.
pub record Added (t t' : Tracker) (handle : ℕ) (type : ResourceType) (idx : ℕ) : Type 0 where
  pub was_free : (t.entries idx).in_use ≡ false
  pub entry :
      t'.entries idx
      ≡ record { handle = handle; type = type; ref_count = 1; in_use = true; payload = blank }
  pub others : (j : ℕ) → idx ≢ j → t'.entries j ≡ t.entries j
  pub counts : count t' ≡ count t + 1

module _ {t : Tracker} {idx : ℕ} {rest : List ℕ} (v : IsTracker t (idx ∷ rest)) (handle : ℕ)
    (type : ResourceType) where
  added_entries : (j : ℕ) → t.free_head ≢ j → (added t handle type).entries j ≡ t.entries j
  unfolding added
  added_entries j ne = ground arith

  new_slot :
      (s : ℕ)
      → empty_slot t handle hash_size 0 ≡ some s
      → (added t handle type).hash_table s ≡ t.free_head
  unfolding added
  new_slot s e = insert_index_at t handle t.free_head s s e ∙ ground arith

  other_slots :
      (s r : ℕ)
      → empty_slot t handle hash_size 0 ≡ some s
      → r ≢ s
      → (added t handle type).hash_table r ≡ t.hash_table r
  unfolding added
  other_slots s r e away =
      insert_index_at t handle t.free_head s r e
      ∙ update_ne t.hash_table s r t.free_head (λ f. away (sym f))

  match_new : (other : ℕ) → matches (added t handle type) other t.free_head ≡ (handle == other)
  unfolding added
  match_new other = ground arith

  old_slots :
      (r : ℕ) → t.hash_table r ≢ u32_max → (added t handle type).hash_table r ≡ t.hash_table r
  unfolding added
  old_slots r taken = insert_index_taken t handle t.free_head r taken

  added-Added : Added t (added t handle type) handle type t.free_head
  unfolding added count
  added-Added = record {
    was_free = head_unused v handle type;
    entry = ground arith;
    others = λ j ne. ground arith;
    counts = added_counts v handle type;
  }

  abbrev Outcome : ℕ → Type 0
  Outcome i =
      (t' : Tracker) × (add t handle type ≡ some (i, t'))
      × Added t t' handle type i
      × IsTracker t' rest

  -- In a well-formed tracker with a free entry, `gravity_resource_tracker_add` of a handle other
  -- than 0 that is not found returns the first free entry, which was not in use and is now for
  -- the handle and type with one reference; no other entry changes, the count grows by one, and
  -- the tracker stays well formed with the rest of the list free.
  pub add_lem :
      handle ≢ invalid_handle
      → get t handle ≡ none
      → (t' : Tracker) × (add t handle type ≡ some (idx, t'))
        × Added t t' handle type idx
        × IsTracker t' rest
  add_lem ne g =
      subst (λ i. Outcome i) v.chain.0
        (
          added t handle type,
          add-done t handle type ne (λ e. omega (arith, head_small v handle type)) g,
          added-Added,
          added-IsTracker v handle type,
        )

  -- In a well-formed tracker, after a successful add for which the inserting loop found an empty
  -- slot, the handle is found at the new entry.
  pub get-add :
      {s : ℕ}
      → empty_slot t handle hash_size 0 ≡ some s
      → {i : ℕ} {t' : Tracker} → add t handle type ≡ some (i, t')
      → get t' handle ≡ some i
  get-add {s} e {i} {t'} a =
      let (ne, missing, at, after) = add-inv t handle type a in
      let found =
        find_slot_inserted t (added t handle type) handle t.free_head s
          (λ f. omega (arith, head_small v handle type)) (new_slot s e) (λ r. other_slots s r e)
          (match_new handle ∙ ground arith) (λ j away. added_entries j (λ f. away (sym f)))
          hash_size 0 (get-missing t handle ne missing) e in
      rw (after, at) (get_of_found (added t handle type) handle t.free_head found.0 ne found.1)

  -- In a well-formed tracker, every handle that was found before a successful add is found after
  -- it at the same entry.
  pub get-add_other :
      {i : ℕ} {t' : Tracker}
      → add t handle type ≡ some (i, t')
      → (other j : ℕ) → get t other ≡ some j
      → get t' other ≡ some j
  get-add_other {i} {t'} a other j g =
      let (_, missing, at, after) = add-inv t handle type a in
      let (ne, (s, found)) = get-found t other j g in
      rw after (
        get_of_found (added t handle type) other j s ne (
          find_slot_kept t (added t handle type) other t.free_head old_slots
            (head_unused v handle type) (match_new other ∙ ground arith)
            (λ j away. added_entries j (λ f. away (sym f))) hash_size 0 found))

-- what `_remove` changes
module _ (t : Tracker) (s idx : ℕ) where
  pub removed_entries : (j : ℕ) → idx ≢ j → (removed t s idx).entries j ≡ t.entries j
  unfolding removed
  removed_entries j away = ground arith

  pub removed_slot : (removed t s idx).hash_table s ≡ u32_max
  unfolding removed
  removed_slot = ground arith

  removed_slots : (r : ℕ) → r ≢ s → (removed t s idx).hash_table r ≡ t.hash_table r
  unfolding removed
  removed_slots r away = ground arith

  removed_unused : ((removed t s idx).entries idx).in_use ≡ false
  unfolding removed
  removed_unused = ground arith

module _ {t : Tracker} {free : List ℕ} (v : IsTracker t free) (handle idx : ℕ)
    (g : get t handle ≡ some idx) where
  -- In a well-formed tracker, removing a handle that is found puts its entry at the front of the
  -- free list; the count falls by one, no other entry changes, the tracker stays well formed, and
  -- the handle is no longer found.
  pub remove_lem :
      IsTracker (remove t handle) (idx ∷ free)
      × (count (remove t handle) + 1 ≡ count t)
      × ((j : ℕ) → idx ≢ j → (remove t handle).entries j ≡ t.entries j)
      × (get (remove t handle) handle ≡ none)
  unfolding count
  remove_lem =
      let (ne, (s, found)) = get-found t handle idx g in
      let f = find_slot-Found t handle hash_size 0 found in
      rw (remove-done t handle s idx ne found) (
        removed-IsTracker v f,
        removed_counts v f,
        (λ j away. removed_entries t s idx j away),
        get_of_missing _ handle (
            find_slot_cleared t (removed t s idx) handle s idx (removed_slot t s idx)
              (λ r. removed_slots t s idx r) (removed_unused t s idx)
              (λ j away. removed_entries t s idx j (λ e. away (sym e))) hash_size 0 found),
      )
