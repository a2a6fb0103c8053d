-- ===== src/Tracker/Call.antt =====
-- The calls of the tracker in terms of their searches.
use gravity_gpu_project.Prelude.{
  ℕ, ◌≡◌, ◌≢◌, refl, ap, ◌∙◌, sym, subst, none, some, arith, u32_max, ℕ_discrete, Option-cases,
  none_ne_some, inl, inr,
}
use mathlib.Core.Option.{some-injective}
use gravity_gpu_project.Tracker.Resource.{ResourceType}
use gravity_gpu_project.Tracker.Table.{
  Tracker, add, added, remove, removed, get, find_slot, empty_slot, insert_index, update, hash_size,
  invalid_handle,
}
use gravity_gpu_project.Tracker.Probe.{empty_slot-vacant}
use gravity_gpu_project.Tracker.Free.{update_ne}

-- `_get` and `_remove` of a handle other than 0, after their search
pub get_of_found :
    (t : Tracker) (handle idx s : ℕ)
    → handle ≢ invalid_handle
    → find_slot t handle hash_size 0 ≡ some (s, idx)
    → get t handle ≡ some idx
unfolding get
get_of_found t handle idx s ne f = rw (get, f) (ground arith)

pub get_of_missing :
    (t : Tracker) (handle : ℕ) → find_slot t handle hash_size 0 ≡ none → get t handle ≡ none
unfolding get
get_of_missing t handle f = rw (get, f) (ground arith)

get_zero : (t : Tracker) (handle : ℕ) → handle ≡ invalid_handle → get t handle ≡ none
unfolding get
get_zero t handle e = ground arith

pub remove-done :
    (t : Tracker) (handle s idx : ℕ)
    → handle ≢ invalid_handle
    → find_slot t handle hash_size 0 ≡ some (s, idx)
    → remove t handle ≡ removed t s idx
unfolding remove removed
remove-done t handle s idx ne f = rw (remove, f) (ground arith)

remove-missing :
    (t : Tracker) (handle : ℕ) → find_slot t handle hash_size 0 ≡ none → remove t handle ≡ t
unfolding remove
remove-missing t handle f = rw (remove, f) (ground arith)

pub get-found :
    (t : Tracker) (handle idx : ℕ)
    → get t handle ≡ some idx
    → (handle ≢ invalid_handle) × ((s : ℕ) × (find_slot t handle hash_size 0 ≡ some (s, idx)))
get-found t handle idx e = elim (Option-cases (find_slot t handle hash_size 0)) [
  | inl f ↦ absurd (none_ne_some (sym (get_of_missing t handle f) ∙ e))
  | inr ((s, j), f) ↦ elim (ℕ_discrete handle invalid_handle) [
    | yes z ↦ absurd (none_ne_some (sym (get_zero t handle z) ∙ e))
    | no ne ↦
        let same : j ≡ idx = some-injective _ _ (sym (get_of_found t handle j s ne f) ∙ e) in
        (ne, (s, subst (λ x. find_slot t handle hash_size 0 ≡ some (s, x)) same f))
  ]
]

pub get-missing :
    (t : Tracker) (handle : ℕ)
    → handle ≢ invalid_handle
    → get t handle ≡ none
    → find_slot t handle hash_size 0 ≡ none
get-missing t handle ne e = elim (Option-cases (find_slot t handle hash_size 0)) [
  | inl f ↦ f
  | inr ((s, j), f) ↦ absurd (none_ne_some (sym e ∙ get_of_found t handle j s ne f))
]

pub add-done :
    (t : Tracker) (handle : ℕ) (type : ResourceType)
    → handle ≢ invalid_handle
    → t.free_head ≢ u32_max
    → get t handle ≡ none
    → add t handle type ≡ some (t.free_head, added t handle type)
unfolding add added
add-done t handle type ne f g = rw (add, g) (ground arith)

-- the table after the inserting loop
pub insert_index_at :
    (t : Tracker) (handle idx s r : ℕ)
    → empty_slot t handle hash_size 0 ≡ some s
    → insert_index t handle idx r ≡ update t.hash_table s idx r
unfolding insert_index
insert_index_at t handle idx s r e = rw (insert_index, e) refl

pub insert_index_taken :
    (t : Tracker) (handle idx r : ℕ)
    → t.hash_table r ≢ u32_max
    → insert_index t handle idx r ≡ t.hash_table r
unfolding insert_index
insert_index_taken t handle idx r taken = elim (Option-cases (empty_slot t handle hash_size 0)) [
  | inl e ↦ rw (insert_index, e) refl
  | inr (s, e) ↦
      let vacant = (empty_slot-vacant t handle hash_size 0 e).0 in
      insert_index_at t handle idx s r e
      ∙ update_ne t.hash_table s r idx (λ at. taken (ap t.hash_table (sym at) ∙ vacant))
]

pub add-inv :
    (t : Tracker) (handle : ℕ) (type : ResourceType) {i : ℕ} {t' : Tracker}
    → add t handle type ≡ some (i, t')
    → (handle ≢ invalid_handle)
      × (get t handle ≡ none)
      × (i ≡ t.free_head)
      × (t' ≡ added t handle type)
unfolding add added
add-inv t handle type {i} {t'} a = ground arith
