-- ===== src/Vulkan/Shutdown.antt =====
-- What `gravity_vk_destroy` leaves alive.
use gravity_gpu_project.Prelude.{
  ℕ, ◌<◌, ◌≡◌, ◌≢◌, refl, ap, ap₂, ◌∙◌, Bool, true, false, ◌&&◌, not, List, [], ◌∷◌, ◌++◌,
  if◌then◌else◌, ◌==◌, arith,
}
use mathlib.Core.List.{append-nil}
use gravity_gpu_project.Vulkan.Calls.{
  Kind, an_instance, a_messenger, a_device, a_command_pool, a_pipeline_cache, a_descriptor_pool,
  Log,
}
use gravity_gpu_project.Vulkan.Objects.{
  Object, rank, same_object, without, after_call, alive, outside,
}
use gravity_gpu_project.Vulkan.State.{VkState}
use gravity_gpu_project.Vulkan.Init.{Platform, Session}
use gravity_gpu_project.Vulkan.Held.{held, with_object}
use gravity_gpu_project.Vulkan.Destroy.{destroy_children, vk_destroy}
use gravity_gpu_project.Vulkan.Remains.{
  AllOfCommands, AllOfState, SameOrigin, Named, Beside, IsPlain, rest_if, freed_if, pool_destroyed,
  plain_destroyed, idle,
}

with_object-AllOfState :
    (k : Kind) (h : ℕ) (objects : List Object)
    → rank k < 6
    → AllOfState objects
    → AllOfState (with_object k h objects)
unfolding AllOfState
with_object-AllOfState k h objects low all = either (h == 0)
  where
    either : (test : Bool) → AllOfState (if test then objects else (k, h) ∷ objects)
    either true = all
    either false = (low, all)

held-AllOfState : (st : VkState) → AllOfState (held st)
unfolding held AllOfState
held-AllOfState st = with_object-AllOfState a_descriptor_pool st.descriptor_pool _ (omega arith) (
    with_object-AllOfState a_pipeline_cache st.pipeline_cache _ (omega arith) (
      with_object-AllOfState a_command_pool st.transfer_cmd_pool _ (omega arith) (
        with_object-AllOfState a_command_pool st.compute_cmd_pool _ (omega arith) (
          with_object-AllOfState a_command_pool st.graphics_cmd_pool _ (omega arith) (
            with_object-AllOfState a_device st.device _ (omega arith) (
              with_object-AllOfState a_messenger st.debug_messenger _ (omega arith)
                (with_object-AllOfState an_instance st.instance_handle _ (omega arith) tt)))))))

-- what `gravity_vk_destroy` tests before it destroys a pool
abbrev has_g : VkState → Bool
has_g st = not (st.graphics_cmd_pool == 0)

abbrev has_c : VkState → Bool
has_c st = not (st.compute_cmd_pool == 0) && not (st.compute_cmd_pool == st.graphics_cmd_pool)

abbrev has_t : VkState → Bool
has_t st =
    not (st.transfer_cmd_pool == 0)
    && (not (st.transfer_cmd_pool == st.graphics_cmd_pool)
        && not (st.transfer_cmd_pool == st.compute_cmd_pool))

nonzero : (n : ℕ) → n ≢ 0 → not (n == 0) ≡ true
nonzero n h = ground arith

both_apart : (n m : ℕ) → n ≢ 0 → n ≢ m → (not (n == 0) && not (n == m)) ≡ true
both_apart n m h k = ground arith

all_apart :
    (n m l : ℕ) → n ≢ 0 → n ≢ m → n ≢ l → (not (n == 0) && (not (n == m) && not (n == l))) ≡ true
all_apart n m l h k j = ground arith

-- the command buffers of the three pools freed
abbrev pub freed : VkState → Log → List Object → List Object
freed st log made =
    outside log st.transfer_cmd_pool
      (outside log st.compute_cmd_pool (outside log st.graphics_cmd_pool made))

module _ (st : VkState) (n : Named st) (log : Log) (made : List Object) where
  freed_all :
      freed_if log (has_t st) st.transfer_cmd_pool (
        freed_if log
          (has_c st)
          st.compute_cmd_pool
          (freed_if log (has_g st) st.graphics_cmd_pool made))
      ≡ freed st log made
  freed_all =
      rw
        (
          nonzero _ n.graphics,
          both_apart _ _ n.compute n.compute_apart,
          all_apart _ _ _ n.transfer n.transfer_apart n.transfer_alone,
        )
        refl

-- the objects of the state, as they are destroyed one after another
rest_empty :
    (st : VkState) (has : Bool)
    → has ≡ true
    → Named st
    → rest_if true an_instance st.instance_handle (
        rest_if (not (st.debug_messenger == 0) && has) a_messenger st.debug_messenger (
          rest_if true a_device st.device (
            rest_if (has_t st) a_command_pool st.transfer_cmd_pool (
              rest_if (has_c st) a_command_pool st.compute_cmd_pool (
                rest_if (has_g st) a_command_pool st.graphics_cmd_pool (
                  rest_if (not (st.pipeline_cache == 0)) a_pipeline_cache st.pipeline_cache (
                    rest_if
                      (not (st.descriptor_pool == 0))
                      a_descriptor_pool
                      st.descriptor_pool
                      (held st))))))))
      ≡ []
unfolding held without same_object
rest_empty st has e n = ground (
  arith, n.device, n.instance_handle, n.graphics, n.compute, n.transfer, n.compute_apart,
  n.transfer_apart, n.transfer_alone,
)

past_test : (d : ℕ) (s s' : Session) → d ≢ 0 → (if d == 0 then s else s') ≡ s'
past_test d s s' h = ground arith

-- Where the state names a device, an instance and three command pools apart from each other, and
-- the library can destroy the messenger, `gravity_vk_destroy` destroys all that the state names,
-- and the command buffers allocated from its pools are freed with them; whatever else commands
-- have made and not destroyed stays alive.
pub vk_destroy-leaves :
    (platform : Platform) (st : VkState) (log : Log) (made : List Object)
    → platform.has_destroy_messenger ≡ true
    → Named st
    → AllOfCommands made
    → alive log ≡ made ++ held st
    → alive (vk_destroy platform (record { state = st; log = log })).log ≡ freed st log made
unfolding vk_destroy destroy_children after_call IsPlain SameOrigin
vk_destroy-leaves platform st log made has n all e =
    let start : Beside log made log (held st) = record {
      remain = e;
      of_commands = all;
      of_state = held-AllOfState st;
      origin = λ p h. refl;
    } in
    let b₁ =
      plain_destroyed log a_descriptor_pool (not (st.descriptor_pool == 0)) st.descriptor_pool
        (omega arith) (λ h l o. refl) (idle log start) in
    let b₂ =
      plain_destroyed log a_pipeline_cache (not (st.pipeline_cache == 0)) st.pipeline_cache
        (omega arith) (λ h l o. refl) b₁ in
    let b₃ = pool_destroyed log (has_g st) st.graphics_cmd_pool b₂ in
    let b₄ = pool_destroyed log (has_c st) st.compute_cmd_pool b₃ in
    let b₅ = pool_destroyed log (has_t st) st.transfer_cmd_pool b₄ in
    let b₆ = plain_destroyed log a_device true st.device (omega arith) (λ h l o. refl) b₅ in
    let b₇ =
      plain_destroyed log a_messenger
        (not (st.debug_messenger == 0) && platform.has_destroy_messenger) st.debug_messenger
        (omega arith) (λ h l o. refl) b₆ in
    let b₈ =
      plain_destroyed log an_instance true st.instance_handle (omega arith) (λ h l o. refl) b₇ in
    ap (λ (s : Session). alive s.log) (past_test st.device _ _ n.device)
    ∙ b₈.remain
    ∙ ap₂ ◌++◌ (freed_all st n log made) (rest_empty st platform.has_destroy_messenger has n)
    ∙ append-nil (freed st log made)
