-- ===== src/Vulkan/Families.antt =====
-- `find_queue_families` and the unique families of `create_logical_device`.
use gravity_gpu_project.Prelude.{
  ℕ, ◌+◌, ◌<◌, ◌≡◌, refl, ap, ◌∙◌, Bool, not, ◌&&◌, Option, none, some, List, [], ◌∷◌, ◌++◌,
  if◌then◌else◌, ◌==◌, u32_max, length, arith, none_ne_some,
}

-- `VkQueueFlags`, the flags that the code looks at
pub record QueueFlags : Type 0 where
  pub graphics : Bool
  pub compute : Bool
  pub transfer : Bool

-- the three families of `gravity_vk_state_t`
pub record Families : Type 0 where
  pub graphics_family : ℕ
  pub compute_family : ℕ
  pub transfer_family : ℕ

-- `i` where the test holds and no index is set yet
abbrev set_once : Bool → ℕ → ℕ → ℕ
set_once test i index = if test && (index == u32_max) then i else index

abbrev pub is_graphics : QueueFlags → Bool
is_graphics f = f.graphics

abbrev pub is_compute : QueueFlags → Bool
is_compute f = f.compute && not f.graphics

abbrev pub is_transfer : QueueFlags → Bool
is_transfer f = f.transfer && (not f.graphics && not f.compute)

-- the loop from index `i` on, over the families that are left
unfoldable pub scan_families : ℕ → List QueueFlags → Families → Families
scan_families i [] found = found
scan_families i (f ∷ families) found = scan_families (i + 1) families (record {
  graphics_family = set_once (is_graphics f) i found.graphics_family;
  compute_family = set_once (is_compute f) i found.compute_family;
  transfer_family = set_once (is_transfer f) i found.transfer_family;
})

-- With the loop run: the result -1, for which `none` stands, without a graphics family, and else the
-- graphics family in place of a family that was not found.
unfoldable pub settle : Families → Option Families
settle found =
    let graphics = found.graphics_family in
    if graphics == u32_max
    then none
    else some (record {
      graphics_family = graphics;
      compute_family = if found.compute_family == u32_max then graphics else found.compute_family;
      transfer_family =
          if found.transfer_family == u32_max then graphics else found.transfer_family;
    })

abbrev pub unset : Families
unset = record { graphics_family = u32_max; compute_family = u32_max; transfer_family = u32_max }

unfoldable pub find_queue_families : List QueueFlags → Option Families
unfolding scan_families settle
find_queue_families families = settle (scan_families 0 families unset)

-- the families that get a queue, each once
unfoldable pub unique_families : Families → List ℕ
unique_families f =
    f.graphics_family
    ∷ ((if f.compute_family == f.graphics_family then [] else f.compute_family ∷ [])
        ++ (if f.transfer_family == f.graphics_family
            then []
            else if f.transfer_family == f.compute_family
            then []
            else f.transfer_family ∷ []))

-- the least index, from `i` on, of a family that passes a test
unfoldable pub first_family : (QueueFlags → Bool) → ℕ → List QueueFlags → Option ℕ
first_family test i [] = none
first_family test i (f ∷ families) =
    let rest = first_family test (i + 1) families in if test f then some i else rest

-- an index that was set before, or else the first one found
abbrev known_or : ℕ → Option ℕ → ℕ
known_or index found =
    if index == u32_max then elim found [ none ↦ u32_max | some k ↦ k ] else index

step :
    (test : Bool) (i index : ℕ) (rest : Option ℕ)
    → i < u32_max
    → known_or (set_once test i index) rest ≡ known_or index (if test then some i else rest)
step test i index rest small = ground arith

known_none : (index : ℕ) → index ≡ known_or index none
known_none index = ground arith

families_eq :
    {g g' c c' t t' : ℕ}
    → g ≡ g'
    → c ≡ c'
    → t ≡ t'
    → ◌≡◌ {A = Families}
        (record { graphics_family = g; compute_family = c; transfer_family = t })
        (record { graphics_family = g'; compute_family = c'; transfer_family = t' })
families_eq p q r =
    λ i. record { graphics_family = p i; compute_family = q i; transfer_family = r i }

scan_lem :
    (i : ℕ) (families : List QueueFlags) (found : Families)
    → i + length families < u32_max
    → scan_families i families found ≡ record {
      graphics_family = known_or found.graphics_family (first_family is_graphics i families);
      compute_family = known_or found.compute_family (first_family is_compute i families);
      transfer_family = known_or found.transfer_family (first_family is_transfer i families);
    }
unfolding scan_families first_family
scan_lem i [] found small = families_eq (known_none _) (known_none _) (known_none _)
scan_lem i (f ∷ families) found small =
    scan_lem (i + 1) families _ (omega arith)
    ∙ families_eq (step (is_graphics f) i _ _ (omega arith))
        (step (is_compute f) i _ _ (omega arith)) (step (is_transfer f) i _ _ (omega arith))

first_family-lt :
    (test : QueueFlags → Bool) (i : ℕ) (families : List QueueFlags) (k : ℕ)
    → first_family test i families ≡ some k
    → k < i + length families
unfolding first_family
first_family-lt test i [] k e = absurd (none_ne_some e)
first_family-lt test i (f ∷ families) k e = ground (arith, first_family-lt test (i + 1) families k)

-- the families by three searches
abbrev pub by_search : Option ℕ → Option ℕ → Option ℕ → Option Families
by_search none compute transfer = none
by_search (some g) compute transfer = some (record {
  graphics_family = g;
  compute_family = elim compute [ none ↦ g | some c ↦ c ];
  transfer_family = elim transfer [ none ↦ g | some t ↦ t ];
})

abbrev Below : Option ℕ → Type 0
Below found = (k : ℕ) → found ≡ some k → k < u32_max

settle_lem :
    (g c t : Option ℕ)
    → Below g
    → Below c
    → Below t
    → settle (record {
      graphics_family = known_or u32_max g;
      compute_family = known_or u32_max c;
      transfer_family = known_or u32_max t;
    })
      ≡ by_search g c t
unfolding settle
settle_lem none c t bg bc bt = ground arith
settle_lem (some g) none none bg bc bt = ground (arith, bg g refl)
settle_lem (some g) none (some t) bg bc bt = ground (arith, bg g refl, bt t refl)
settle_lem (some g) (some c) none bg bc bt = ground (arith, bg g refl, bc c refl)
settle_lem (some g) (some c) (some t) bg bc bt = ground (arith, bg g refl, bc c refl, bt t refl)

-- With fewer than 2^32 - 1 families, the one loop of `find_queue_families` gives what three
-- separate searches give: the first family with graphics, the first with compute and no graphics
-- and the first with transfer alone, with the graphics family in place of one that is missing; it
-- fails exactly when there is no graphics family.
pub find_queue_families-by_search :
    (families : List QueueFlags)
    → length families < u32_max
    → find_queue_families families
      ≡ by_search
          (first_family is_graphics 0 families)
          (first_family is_compute 0 families)
          (first_family is_transfer 0 families)
unfolding find_queue_families
find_queue_families-by_search families small =
    ap settle (scan_lem 0 families unset (omega arith))
    ∙ settle_lem _ _ _ (below is_graphics) (below is_compute) (below is_transfer)
  where
    below : (test : QueueFlags → Bool) → Below (first_family test 0 families)
    below test k e = omega (arith, first_family-lt test 0 families k e, small)
