-- ===== src/Vulkan/Cleanup.antt =====
-- What `gravity_vk_destroy` leaves alive.
use gravity_gpu_project.Prelude.{
  ℕ, ◌≡◌, refl, ap, ◌∙◌, Bool, true, List, ◌++◌, if◌then◌else◌, ◌==◌, arith,
}
use gravity_gpu_project.Vulkan.Objects.{Object, alive}
use gravity_gpu_project.Vulkan.Init.{Platform, Session}
use gravity_gpu_project.Vulkan.Held.{held, Owns}
use gravity_gpu_project.Vulkan.Destroy.{vk_destroy}

if_true : (b : Bool) (x y : Session) → b ≡ true → (if b then x else y) ≡ x
if_true b x y e = rw e refl

zero_test : (n : ℕ) → n ≡ 0 → (n == 0) ≡ true
zero_test n e = ground arith

-- `gravity_vk_destroy` after a start that failed before there was a device does nothing, so all the
-- objects that the state names stay alive.
pub vk_destroy-early :
    (platform : Platform) (objects : List Object) (s : Session)
    → s.state.device ≡ 0
    → Owns objects s
    → alive (vk_destroy platform s).log ≡ held s.state ++ objects
unfolding vk_destroy
vk_destroy-early platform objects s e owns =
    let same : vk_destroy platform s ≡ s = if_true _ s _ (zero_test s.state.device e) in
    ap (λ (x : Session). alive x.log) same ∙ owns
