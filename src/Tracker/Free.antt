-- ===== src/Tracker/Free.antt =====
-- The free list of the tracker, threaded through `ref_count`, and the invariant of the whole state.
use gravity_gpu_project.Prelude.{
  ℕ, zero, suc, ◌+◌, ◌-◌, ◌≤◌, ◌<◌, ◌≡◌, ◌≢◌, refl, ap, ◌∙◌, sym, subst, Bool, true, false, List,
  [], ◌∷◌, arith, if◌then◌else◌, u32_max,
}
use gravity_gpu_project.Tracker.Resource.{Entry}
use gravity_gpu_project.Tracker.Table.{Tracker, init, update, hash_size, max_entries}

abbrev pub NotIn : ℕ → List ℕ → Type 0
NotIn x [] = Unit {0}
NotIn x (y ∷ ys) = (x ≢ y) × NotIn x ys

-- The list of the free indices that starts at `head`, each once.
abbrev pub Links : (ℕ → Entry) → ℕ → List ℕ → Type 0
Links e head [] = head ≡ u32_max
Links e head (x ∷ xs) =
    (head ≡ x)
    × (x < max_entries)
    × ((e x).in_use ≡ false)
    × NotIn x xs
    × Links e (e x).ref_count xs

-- 1 for an entry in use, and the number of such entries below index `n`
abbrev pub weight : Entry → ℕ
weight e = if e.in_use then 1 else 0

pub live : (ℕ → Entry) → ℕ → ℕ
live e zero = 0
live e (suc n) = weight (e n) + live e n

-- The free list is sound, the count is the number of entries in use, and every filled slot of the
-- table leads to an entry in use, no two slots to one.
pub record IsTracker (t : Tracker) (free : List ℕ) : Type 0 where
  pub chain : Links t.entries t.free_head free
  pub counted : t.entry_count ≡ live t.entries max_entries
  pub slots :
      (s : ℕ)
      → s < hash_size
      → t.hash_table s ≢ u32_max
      → (t.hash_table s < max_entries) × ((t.entries (t.hash_table s)).in_use ≡ true)
  pub once :
      (r s : ℕ)
      → r < hash_size
      → s < hash_size
      → t.hash_table r ≢ u32_max
      → t.hash_table r ≡ t.hash_table s
      → r ≡ s

pub live-le : (e : ℕ → Entry) (n : ℕ) → live e n ≤ n
unfolding live
live-le e zero = omega arith
live-le e (suc n) = ground (arith, live-le e n)

pub weight_unused : (e : Entry) → e.in_use ≡ false → weight e ≡ 0
weight_unused e h = ground arith

pub weight_used : (e : Entry) → e.in_use ≡ true → weight e ≡ 1
weight_used e h = ground arith

live-update_above :
    (e : ℕ → Entry) (idx : ℕ) (v : Entry) (n : ℕ) → n ≤ idx → live (update e idx v) n ≡ live e n
unfolding live
live-update_above e idx v zero h = refl
live-update_above e idx v (suc n) h = ground (arith, live-update_above e idx v n)

pub live-update :
    (e : ℕ → Entry) (idx : ℕ) (v : Entry) (n : ℕ)
    → idx < n
    → live (update e idx v) n + weight (e idx) ≡ live e n + weight v
unfolding live
live-update e idx v zero h = absurd (omega arith)
live-update e idx v (suc n) h = ground (arith, live-update_above e idx v n, live-update e idx v n)

pub update_ne {ℓ} : {A : Type ℓ} (e : ℕ → A) (idx x : ℕ) (v : A) → idx ≢ x → update e idx v x ≡ e x
update_ne e idx x v ne = ground arith

-- An entry that is not on the list may change.
pub Links-update :
    (e : ℕ → Entry) (head idx : ℕ) (v : Entry) (free : List ℕ)
    → NotIn idx free
    → Links e head free
    → Links (update e idx v) head free
Links-update e head idx v [] n l = l
Links-update e head idx v (x ∷ xs) n l =
    let same : update e idx v x ≡ e x = update_ne e idx x v n.0 in
    (
      l.0,
      l.1,
      ap (λ (r : Entry). r.in_use) same ∙ l.2,
      l.3,
      subst (λ h. Links (update e idx v) h xs) (sym (ap (λ (r : Entry). r.ref_count) same))
          (Links-update e (e x).ref_count idx v xs n.1 l.4),
    )

pub used_ne_free : {b : Bool} → b ≡ true → b ≡ false → ⊥
used_ne_free p q = cc

-- An index in use is not on the list.
pub used-NotIn :
    (e : ℕ → Entry) (head idx : ℕ) (free : List ℕ)
    → (e idx).in_use ≡ true
    → Links e head free
    → NotIn idx free
used-NotIn e head idx [] u l = tt
used-NotIn e head idx (x ∷ xs) u l = (
  (λ p. elim (used_ne_free u (ap (λ x. (e x).in_use) p ∙ l.2)) [ ]),
  used-NotIn e (e x).ref_count idx xs u l.4,
)

unfoldable pub up : ℕ → ℕ → List ℕ
up i zero = []
up i (suc n) = i ∷ up (i + 1) n

live_none : (e : ℕ → Entry) → ((i : ℕ) → (e i).in_use ≡ false) → (n : ℕ) → live e n ≡ 0
unfolding live
live_none e none_used zero = refl
live_none e none_used (suc n) = ground (arith, none_used n, live_none e none_used n)

NotIn-up : (x i n : ℕ) → x < i → NotIn x (up i n)
unfolding up
NotIn-up x i zero h = tt
NotIn-up x i (suc n) h = ((λ e. omega arith), NotIn-up x (i + 1) n (omega arith))

init-Links : (n i : ℕ) → i + suc n ≡ max_entries → Links init.entries i (up i (suc n))
unfolding up init
init-Links zero i h = (refl, omega arith, refl, tt, ground arith)
init-Links (suc n) i h = (
  refl,
  omega arith,
  refl,
  NotIn-up i (i + 1) (suc n) (omega arith),
  subst (λ h. Links init.entries h (up (i + 1) (suc n))) (ground arith)
      (init-Links n (i + 1) (omega arith)),
)

-- The tracker that `gravity_resource_tracker_init` makes is well formed, with every entry free
-- and none counted.
pub init-IsTracker : IsTracker init (up 0 max_entries)
unfolding init
init-IsTracker = record {
  chain = init-Links (max_entries - 1) 0 refl;
  counted = sym (live_none init.entries (λ i. refl) max_entries);
  slots = λ s h ne. absurd (ne refl);
  once = λ r s p q ne e. absurd (ne refl);
}
