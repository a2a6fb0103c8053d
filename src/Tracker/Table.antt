-- ===== src/Tracker/Table.antt =====
-- The tracker's state and operations: host-daemon/src/resource_tracker.c. An array is a function of
-- its index, and a pointer to an entry is the entry's index.
use gravity_gpu_project.Prelude.{
  ℕ, zero, suc, ◌+◌, ◌-◌, ◌/◌, ◌^◌, Option, none, some, true, false, ◌&&◌, List, [], ◌∷◌,
  if◌then◌else◌, ltb, ◌==◌, bit_and, bit_xor, add32, sub32, mul32, u32_max,
}
use gravity_gpu_project.Tracker.Resource.{ResourceType, buffer, blank, Entry}

-- GRAVITY_TRACKER_HASH_SIZE and GRAVITY_TRACKER_MAX_ENTRIES
abbrev pub hash_size : ℕ
hash_size = 4096

abbrev pub max_entries : ℕ
max_entries = 65536

-- GRAVITY_INVALID_HANDLE
abbrev pub invalid_handle : ℕ
invalid_handle = 0

pub record Tracker : Type 0 where
  pub entries : ℕ → Entry
  pub hash_table : ℕ → ℕ
  pub entry_count : ℕ
  pub free_head : ℕ

abbrev pub update {ℓ} : {A : Type ℓ} → (ℕ → A) → ℕ → A → ℕ → A
update f i v = λ j. if j == i then v else f j

unfoldable pub hash_handle : ℕ → ℕ
hash_handle handle =
    let h₁ = mul32 (bit_xor (handle / 2 ^ 16) handle) 0x45d9f3b in
    let h₂ = mul32 (bit_xor (h₁ / 2 ^ 16) h₁) 0x45d9f3b in
    bit_and (bit_xor (h₂ / 2 ^ 16) h₂) (hash_size - 1)

-- the slot of a probe
unfoldable pub slot : ℕ → ℕ → ℕ
slot handle probe = bit_and (add32 (hash_handle handle) probe) (hash_size - 1)

-- the entry after `memset`: GRAVITY_RES_BUFFER is 0
abbrev pub zeroed : Entry
zeroed = record { handle = 0; type = buffer; ref_count = 0; in_use = false; payload = blank }

-- Every entry is free, and leads to the next; the last one ends the list.
unfoldable pub init : Tracker
init = record {
  entries = λ i. record zeroed { ref_count = if i == max_entries - 1 then u32_max else i + 1 };
  hash_table = λ i. u32_max;
  entry_count = 0;
  free_head = 0;
}

-- The probing loop of `_get` and of `_remove`, with `n` rounds left: the slot and the index at which
-- it finds the handle. `none` stands for an empty slot met, or for no round left.
unfoldable pub find_slot : Tracker → ℕ → ℕ → ℕ → Option (ℕ × ℕ)
find_slot t handle zero probe = none
find_slot t handle (suc n) probe =
    let rest = find_slot t handle n (probe + 1) in
    let s = slot handle probe in
    let idx = t.hash_table s in
    if idx == u32_max
    then none
    else if (t.entries idx).in_use && ((t.entries idx).handle == handle)
    then some (s, idx)
    else rest

unfoldable pub get : Tracker → ℕ → Option ℕ
get t handle =
    if handle == invalid_handle
    then none
    else elim (find_slot t handle hash_size 0) [ none ↦ none | some (s, idx) ↦ some idx ]

-- The inserting loop of `_add`: the first empty slot.
unfoldable pub empty_slot : Tracker → ℕ → ℕ → ℕ → Option ℕ
empty_slot t handle zero probe = none
empty_slot t handle (suc n) probe =
    let rest = empty_slot t handle n (probe + 1) in
    let s = slot handle probe in if t.hash_table s == u32_max then some s else rest

-- the table after the inserting loop
unfoldable pub insert_index : Tracker → ℕ → ℕ → ℕ → ℕ
insert_index t handle idx = elim (empty_slot t handle hash_size 0) [
  | none ↦ t.hash_table
  | some s ↦ update t.hash_table s idx
]

-- the tracker after a successful `_add`
unfoldable pub added : Tracker → ℕ → ResourceType → Tracker
added t handle type =
    let idx = t.free_head in
    record {
      entries =
          update t.entries idx (record {
            handle = handle;
            type = type;
            ref_count = 1;
            in_use = true;
            payload = blank;
          });
      hash_table = insert_index t handle idx;
      entry_count = add32 t.entry_count 1;
      free_head = (t.entries idx).ref_count;
    }

-- The result is the new entry's index with the tracker; `none` stands for NULL.
unfoldable pub add : Tracker → ℕ → ResourceType → Option (ℕ × Tracker)
add t handle type =
    if handle == invalid_handle
    then none
    else if t.free_head == u32_max
    then none
    else elim (get t handle) [ some _ ↦ none | none ↦ some (t.free_head, added t handle type) ]

-- the tracker after `_remove` has found the handle at slot `s` with index `idx`
unfoldable pub removed : Tracker → ℕ → ℕ → Tracker
removed t s idx = record {
  entries =
      update t.entries idx (record (t.entries idx) {
        in_use = false;
        handle = invalid_handle;
        ref_count = t.free_head;
      });
  hash_table = update t.hash_table s u32_max;
  entry_count = sub32 t.entry_count 1;
  free_head = idx;
}

unfoldable pub remove : Tracker → ℕ → Tracker
remove t handle =
    if handle == invalid_handle
    then t
    else elim (find_slot t handle hash_size 0) [ none ↦ t | some (s, idx) ↦ removed t s idx ]

unfoldable pub count : Tracker → ℕ
count t = t.entry_count

-- The handles and types that `_destroy` logs: of the `n` entries from `i` on, those in use.
unfoldable pub leaked : Tracker → ℕ → ℕ → List (ℕ × ResourceType)
leaked t i zero = []
leaked t i (suc n) =
    let rest = leaked t (i + 1) n in
    if (t.entries i).in_use then ((t.entries i).handle, (t.entries i).type) ∷ rest else rest

-- The log, and the tracker with every byte zero.
unfoldable pub destroy : Tracker → List (ℕ × ResourceType) × Tracker
destroy t = (
  if ltb 0 t.entry_count then leaked t 0 max_entries else [],
  record { entries = λ i. zeroed; hash_table = λ i. 0; entry_count = 0; free_head = 0 },
)
