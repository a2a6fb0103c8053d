-- ===== src/Tracker/Loss.antt =====
-- What `gravity_resource_tracker_remove` does to the handles that share a hash with the one removed.
use gravity_gpu_project.Prelude.{sym, refl, ◌-◌, ℕ, ◌≡◌, ◌≢◌, ap, ◌∙◌, none, some, true, u32_max}
use gravity_gpu_project.Tracker.Table.{
  Tracker, remove, removed, get, slot, hash_handle, hash_size, invalid_handle,
}
use gravity_gpu_project.Tracker.Probe.{matches, find_slot_hit, find_slot_end}
use gravity_gpu_project.Tracker.Call.{remove-done, get_of_missing}
use gravity_gpu_project.Tracker.Lookup.{removed_slot, removed_entries}

same_home :
    (t : Tracker) (handle other : ℕ)
    → hash_handle handle ≡ hash_handle other
    → slot handle 0 ≡ slot other 0
unfolding slot
same_home t handle other e = rw e refl

-- Removing a handle other than 0 that stands in the slot of its hash loses every other handle
-- with the same hash that was found: it is no longer found, while its entry stays as it was.
pub remove-hides :
    (t : Tracker) (handle other idx j : ℕ)
    → handle ≢ invalid_handle
    → hash_handle handle ≡ hash_handle other
    → t.hash_table (slot handle 0) ≡ idx
    → idx ≢ u32_max
    → matches t handle idx ≡ true
    → get t other ≡ some j
    → idx ≢ j
    → (get (remove t handle) other ≡ none) × ((remove t handle).entries j ≡ t.entries j)
remove-hides t handle other idx j ne home at full m g away =
    let found = find_slot_hit t handle (hash_size - 1) 0 at full m in
    let cleared =
      ap (removed t (slot handle 0) idx).hash_table (sym (same_home t handle other home))
      ∙ removed_slot t (slot handle 0) idx in
    rw (remove-done t handle (slot handle 0) idx ne found) (
      get_of_missing _ other
          (find_slot_end (removed t (slot handle 0) idx) other (hash_size - 1) 0 cleared),
      removed_entries t (slot handle 0) idx j away,
    )
