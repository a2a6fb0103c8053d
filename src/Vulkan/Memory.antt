-- ===== src/Vulkan/Memory.antt =====
-- `gravity_vk_find_memory_type` of host-daemon/src/vk_device.c.
use gravity_gpu_project.Prelude.{
  ℕ, suc, ◌+◌, ◌^◌, ◌<◌, ◌≡◌, Bool, true, false, not, ◌&&◌, ◌||◌, List, [], ◌∷◌, some,
  if◌then◌else◌, ◌==◌, bit_and, u32_max, get_elem?, sym, arith, refl, subst, zero, Bool-cases, inl,
  inr, ◌⊎◌,
}
use mathlib.Core.Option.{some-injective}
use gravity_gpu_project.Translate.Flags.{MemoryProperties}

-- `(flags & properties) == properties`
unfoldable pub has_all : MemoryProperties → MemoryProperties → Bool
has_all flags properties =
    (not properties.device_local || flags.device_local)
    && ((not properties.host_visible || flags.host_visible)
        && ((not properties.host_coherent || flags.host_coherent)
            && ((not properties.host_cached || flags.host_cached)
                && (not properties.lazily_allocated || flags.lazily_allocated))))

-- `type_filter & (1 << i)`
unfoldable pub allowed : ℕ → ℕ → Bool
allowed type_filter i = not (bit_and type_filter (2 ^ i) == 0)

-- The loop from index `i` on, over the types that are left.
unfoldable pub find_type_from : ℕ → MemoryProperties → ℕ → List MemoryProperties → ℕ
find_type_from type_filter properties i [] = u32_max
find_type_from type_filter properties i (flags ∷ types) =
    let rest = find_type_from type_filter properties (i + 1) types in
    if allowed type_filter i && has_all flags properties then i else rest

-- The memory types are the property flags of `state->memory_properties`.
unfoldable pub find_memory_type : List MemoryProperties → ℕ → MemoryProperties → ℕ
find_memory_type types type_filter properties = find_type_from type_filter properties 0 types

-- the type at index `j` of the list, which has index `i + j` for Vulkan, may serve the request
abbrev pub SuitsFrom : ℕ → List MemoryProperties → ℕ → MemoryProperties → ℕ → Type 0
SuitsFrom i types type_filter properties j =
    (flags : MemoryProperties) × (get_elem? types j ≡ some flags)
    × (allowed type_filter (i + j) ≡ true)
    × (has_all flags properties ≡ true)

abbrev pub Suits : List MemoryProperties → ℕ → MemoryProperties → ℕ → Type 0
Suits = SuitsFrom 0

abbrev FirstFrom : ℕ → List MemoryProperties → ℕ → MemoryProperties → ℕ → Type 0
FirstFrom i types type_filter properties k =
    ((k ≡ u32_max) × ((j : ℕ) → SuitsFrom i types type_filter properties j → ⊥))
    ⊎ ((n : ℕ) × (k ≡ i + n)
        × SuitsFrom i types type_filter properties n
        × ((j : ℕ) → j < n → SuitsFrom i types type_filter properties j → ⊥))

not_both : (a b : Bool) → (a && b) ≡ false → a ≡ true → b ≡ true → ⊥
not_both a b n p q = ground arith

both : (a b : Bool) → (a && b) ≡ true → (a ≡ true) × (b ≡ true)
both a b e = ground arith

no_elem : (j : ℕ) {f : MemoryProperties} → get_elem? [] j ≡ some f → ⊥
no_elem j e = cc

module _ (type_filter : ℕ) (properties : MemoryProperties) where
  suits-tail :
      (i : ℕ) (flags : MemoryProperties) (types : List MemoryProperties) (j : ℕ)
      → SuitsFrom i (flags ∷ types) type_filter properties (suc j)
      → SuitsFrom (i + 1) types type_filter properties j
  suits-tail i flags types j (f, at, a, h) =
      (f, at, subst (λ x. allowed type_filter x ≡ true) {x = i + suc j} (omega arith) a, h)

  suits-cons :
      (i : ℕ) (flags : MemoryProperties) (types : List MemoryProperties) (j : ℕ)
      → SuitsFrom (i + 1) types type_filter properties j
      → SuitsFrom i (flags ∷ types) type_filter properties (suc j)
  suits-cons i flags types j (f, at, a, h) =
      (f, at, subst (λ x. allowed type_filter x ≡ true) {y = i + suc j} (omega arith) a, h)

  refused :
      (i : ℕ) (flags : MemoryProperties) (types : List MemoryProperties)
      → (allowed type_filter i && has_all flags properties) ≡ false
      → SuitsFrom i (flags ∷ types) type_filter properties 0
      → ⊥
  refused i flags types no_fit (f, at, a, h) =
      not_both _ _ no_fit (subst (λ x. allowed type_filter x ≡ true) {x = i + 0} (omega arith) a)
        (subst (λ x. has_all x properties ≡ true) (sym (some-injective _ _ at)) h)

  none_suits :
      (i : ℕ) (flags : MemoryProperties) (types : List MemoryProperties)
      → (allowed type_filter i && has_all flags properties) ≡ false
      → (n : ℕ) → ((j : ℕ) → j < n → SuitsFrom (i + 1) types type_filter properties j → ⊥)
      → (j : ℕ) → j < suc n
      → SuitsFrom i (flags ∷ types) type_filter properties j
      → ⊥
  none_suits i flags types no_fit n nothing zero lt s = refused i flags types no_fit s
  none_suits i flags types no_fit n nothing (suc j) lt s =
      nothing j (omega arith) (suits-tail i flags types j s)

  first :
      (i : ℕ) (types : List MemoryProperties)
      → FirstFrom i types type_filter properties (find_type_from type_filter properties i types)
  unfolding find_type_from
  first i [] = inl (refl, λ j s. no_elem j s.1)
  first i (flags ∷ types) = elim (Bool-cases (allowed type_filter i && has_all flags properties)) [
    | inl e ↦ rw e (
        inr (
          0,
          omega arith,
          (
            flags,
            refl,
            subst (λ x. allowed type_filter x ≡ true) {y = i + 0} (omega arith) (both _ _ e).0,
            (both _ _ e).1,
          ),
          λ j lt. absurd (omega arith),
        ))
    | inr e ↦ rw e (elim (first (i + 1) types) [
      | inl (none_left, nothing) ↦
          inl
            (none_left, λ j. none_suits i flags types e (suc j) (λ k _. nothing k) j (omega arith))
      | inr (n, at, s, least) ↦
          inr (suc n, omega arith, suits-cons i flags types n s, none_suits i flags types e n least)
    ])
  ]

-- `gravity_vk_find_memory_type` gives UINT32_MAX when no memory type that the filter allows has
-- all the properties asked for, and else the least index of such a type.
pub find_memory_type-first :
    (types : List MemoryProperties) (type_filter : ℕ) (properties : MemoryProperties)
    → let k = find_memory_type types type_filter properties in
      ((k ≡ u32_max) × ((j : ℕ) → Suits types type_filter properties j → ⊥))
      ⊎ (Suits types type_filter properties k
          × ((j : ℕ) → j < k → Suits types type_filter properties j → ⊥))
unfolding find_memory_type
find_memory_type-first types type_filter properties = elim (first type_filter properties 0 types) [
  | inl p ↦ inl p
  | inr (n, at, s, least) ↦ inr (
      subst
        (λ k.
          Suits types type_filter properties k
          × ((j : ℕ) → j < k → Suits types type_filter properties j → ⊥))
        {x = n} (omega (arith, at)) (s, least))
]
