-- ===== src/Vulkan/Gpu.antt =====
-- `select_physical_device`.
use gravity_gpu_project.Prelude.{
  ℕ, ◌≡◌, refl, ap, ap₂, ◌∙◌, sym, Bool, true, false, ◌&&◌, Option, none, some, List, [], ◌∷◌,
  if◌then◌else◌, ◌==◌,
}
use gravity_gpu_project.Translate.Flags.{MemoryProperties}
use gravity_gpu_project.Vulkan.Families.{QueueFlags}

-- a physical device, with what Vulkan tells of it
pub record Gpu : Type 0 where
  pub handle : ℕ
  pub vendor_id : ℕ
  pub is_integrated : Bool
  pub memory_types : List MemoryProperties
  pub families : List QueueFlags

-- the Intel integrated devices, which the code prefers
unfoldable pub is_preferred : Gpu → Bool
is_preferred g = (g.vendor_id == 0x8086) && g.is_integrated

-- the loop, with `selected` and `fallback`
unfoldable pub choose : List Gpu → Option Gpu → Option Gpu → Option Gpu × Option Gpu
unfolding is_preferred
choose [] selected fallback = (selected, fallback)
choose (g ∷ gpus) selected fallback =
    choose gpus (if is_preferred g then some g else selected)
      (elim fallback [ none ↦ some g | some f ↦ some f ])

unfoldable pub or_else : Option Gpu → Option Gpu → Option Gpu
or_else (some g) other = some g
or_else none other = other

-- `none` stands for the result -1, without any device
unfoldable pub select_physical_device : List Gpu → Option Gpu
unfolding choose or_else
select_physical_device gpus =
    let (selected, fallback) = choose gpus none none in or_else selected fallback

-- the last preferred device of a list
unfoldable pub last_preferred : List Gpu → Option Gpu
unfolding is_preferred
last_preferred [] = none
last_preferred (g ∷ gpus) = or_else (last_preferred gpus) (if is_preferred g then some g else none)

unfoldable pub first : List Gpu → Option Gpu
first [] = none
first (g ∷ gpus) = some g

or_else_assoc : (a b c : Option Gpu) → or_else (or_else a b) c ≡ or_else a (or_else b c)
unfolding or_else
or_else_assoc none b c = refl
or_else_assoc (some g) b c = refl

kept_or_new :
    (b : Bool) (g : Gpu) (selected : Option Gpu)
    → or_else (if b then some g else none) selected ≡ (if b then some g else selected)
unfolding or_else
kept_or_new true g selected = refl
kept_or_new false g selected = refl

choose-selected :
    (gpus : List Gpu) (selected fallback : Option Gpu)
    → (choose gpus selected fallback).0 ≡ or_else (last_preferred gpus) selected
unfolding choose last_preferred or_else
choose-selected [] selected fallback = refl
choose-selected (g ∷ gpus) selected fallback =
    choose-selected gpus _ _
    ∙ ap (or_else (last_preferred gpus)) (sym (kept_or_new (is_preferred g) g selected))
    ∙ sym (or_else_assoc (last_preferred gpus) _ selected)

choose-kept :
    (gpus : List Gpu) (selected : Option Gpu) (f : Gpu) → (choose gpus selected (some f)).1 ≡ some f
unfolding choose
choose-kept [] selected f = refl
choose-kept (g ∷ gpus) selected f = choose-kept gpus _ f

choose-fallback :
    (gpus : List Gpu) (selected : Option Gpu) → (choose gpus selected none).1 ≡ first gpus
unfolding choose first
choose-fallback [] selected = refl
choose-fallback (g ∷ gpus) selected = choose-kept gpus _ g

or_else-none : (o : Option Gpu) → or_else o none ≡ o
unfolding or_else
or_else-none none = refl
or_else-none (some g) = refl

-- `select_physical_device` takes the last Intel integrated device, and without one the first device;
-- it fails exactly when there is no device.
pub select_physical_device_lem :
    (gpus : List Gpu) → select_physical_device gpus ≡ or_else (last_preferred gpus) (first gpus)
unfolding select_physical_device
select_physical_device_lem gpus =
    ap₂ or_else (choose-selected gpus none none ∙ or_else-none _) (choose-fallback gpus none)
