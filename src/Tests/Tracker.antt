-- ===== src/Tests/Tracker.antt =====
-- A tracker with the handles 3 and 96, which have the same hash.
use gravity_gpu_project.Prelude.{ℕ, ◌+◌, ◌≡◌, ◌≢◌, refl, ◌∷◌, none, some, true, arith}
use gravity_gpu_project.Tracker.Resource.{buffer, texture}
use gravity_gpu_project.Tracker.Table.{
  Tracker, init, added, add, get, remove, count, hash_handle, slot, empty_slot, find_slot,
  insert_index, hash_size,
}
use gravity_gpu_project.Tracker.Probe.{matches}
use gravity_gpu_project.Tracker.Free.{IsTracker, init-IsTracker, up}
use gravity_gpu_project.Tracker.Step.{added-IsTracker}
use gravity_gpu_project.Tracker.Lookup.{Added, add_lem, get-add, get-add_other, remove_lem}
use gravity_gpu_project.Tracker.Loss.{remove-hides}

abbrev one : Tracker
one = added init 3 buffer

abbrev pub both : Tracker
both = added one 96 texture

found_3 : get both 3 ≡ some 0
unfolding get find_slot slot hash_handle added init insert_index empty_slot
found_3 = refl

pub found_96 : get both 96 ≡ some 1
unfolding get find_slot slot hash_handle added init insert_index empty_slot
found_96 = refl

init_chain : IsTracker init (0 ∷ up 1 65535)
unfolding up
init_chain = init-IsTracker

one_chain : IsTracker one (1 ∷ up 2 65534)
unfolding up
one_chain = added-IsTracker init_chain 3 buffer

pub both_chain : IsTracker both (up 2 65534)
both_chain = added-IsTracker one_chain 96 texture

missing_96 : get one 96 ≡ none
unfolding get find_slot slot hash_handle added init insert_index empty_slot
missing_96 = refl

one_found_3 : get one 3 ≡ some 0
unfolding get find_slot slot hash_handle added init insert_index empty_slot
one_found_3 = refl

slot_of_96 : empty_slot one 96 hash_size 0 ≡ some 582
unfolding slot hash_handle added init insert_index empty_slot
slot_of_96 = refl

added_96 : add one 96 texture ≡ some (1, both)
unfolding add get find_slot slot hash_handle added init insert_index empty_slot
added_96 = refl

add_lem_example :
    (t' : Tracker) × (add one 96 texture ≡ some (1, t'))
    × Added one t' 96 texture 1
    × IsTracker t' (up 2 65534)
add_lem_example = add_lem one_chain 96 texture (omega arith) missing_96

get-add_example : get both 96 ≡ some 1
get-add_example = get-add one_chain 96 texture slot_of_96 added_96

get-add_other_example : get both 3 ≡ some 0
get-add_other_example = get-add_other one_chain 96 texture added_96 3 0 one_found_3

remove_lem_example :
    IsTracker (remove both 3) (0 ∷ up 2 65534)
    × (count (remove both 3) + 1 ≡ count both)
    × ((j : ℕ) → 0 ≢ j → (remove both 3).entries j ≡ both.entries j)
    × (get (remove both 3) 3 ≡ none)
remove_lem_example = remove_lem both_chain 3 0 found_3

same_hash : hash_handle 3 ≡ hash_handle 96
unfolding hash_handle
same_hash = refl

at_home : both.hash_table (slot 3 0) ≡ 0
unfolding slot hash_handle added init insert_index empty_slot
at_home = refl

matching : matches both 3 0 ≡ true
unfolding added init
matching = refl

remove-hides_example :
    (get (remove both 3) 96 ≡ none) × ((remove both 3).entries 1 ≡ both.entries 1)
remove-hides_example =
    remove-hides both 3 96 0 1 (omega arith) same_hash at_home (omega arith) matching found_96
      (omega arith)
