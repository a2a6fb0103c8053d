-- ===== src/Vulkan/Held.antt =====
-- The objects that `gravity_vk_state_t` names, along `gravity_vk_init`.
use gravity_gpu_project.Prelude.{
  ℕ, ◌≡◌, ◌≢◌, refl, ap, ◌∙◌, sym, true, false, none, some, List, [], ◌∷◌, ◌++◌, if◌then◌else◌,
  ◌==◌, arith,
}
use gravity_gpu_project.Vulkan.Calls.{
  Vulkan, Log, CreateInfo, Kind, kind, an_instance, a_messenger, a_device, a_command_pool,
  a_pipeline_cache, a_descriptor_pool,
}
use gravity_gpu_project.Vulkan.Objects.{Object, alive, after_call}
use gravity_gpu_project.Vulkan.State.{VkState}
use gravity_gpu_project.Vulkan.Init.{Session, Outcome, and_then, ask}

-- an object in front of the others, unless its handle is VK_NULL_HANDLE
abbrev pub with_object : Kind → ℕ → List Object → List Object
with_object k h objects = if h == 0 then objects else (k, h) ∷ objects

unfoldable pub held : VkState → List Object
held st = with_object a_descriptor_pool st.descriptor_pool (
    with_object a_pipeline_cache st.pipeline_cache (
      with_object a_command_pool st.transfer_cmd_pool (
        with_object a_command_pool st.compute_cmd_pool (
          with_object a_command_pool st.graphics_cmd_pool (
            with_object a_device st.device (
              with_object a_messenger st.debug_messenger
                (with_object an_instance st.instance_handle [])))))))

-- no object that is created has the handle VK_NULL_HANDLE
abbrev pub NonNull : Vulkan → Type 0
NonNull vulkan = (log : Log) (info : CreateInfo) (h : ℕ) → vulkan.creates log info ≡ some h → h ≢ 0

abbrev pub Owns : List Object → Session → Type 0
Owns objects s = alive s.log ≡ held s.state ++ objects

-- Behind a step the state names what is alive, and after a success something is still unset.
abbrev pub Stage : (VkState → Type 0) → List Object → Outcome → Type 0
Stage Later objects o = Owns objects o.1 × (o.0 ≡ true → Later o.1.state)

pub chain :
    (Now Later : VkState → Type 0) (objects : List Object) (o : Outcome) (next : Session → Outcome)
    → Stage Now objects o
    → ((s : Session) → Owns objects s → Now s.state → Stage Later objects (next s))
    → Stage Later objects (and_then o next)
unfolding and_then
chain Now Later objects (false, s) next (owns, ready) f = (owns, λ e. absurd (ground arith))
chain Now Later objects (true, s) next (owns, ready) f = f s owns (ready refl)

pub asked_none :
    (objects : List Object) (s : Session) (info : CreateInfo)
    → Owns objects s
    → Owns objects (ask s info none)
unfolding alive after_call
asked_none objects s info e = e

-- an answered creation whose handle the new state names
pub asked_some :
    (objects : List Object) (s : Session) (info : CreateInfo) (h : ℕ) (st : VkState)
    → Owns objects s
    → held st ≡ (kind info, h) ∷ held s.state
    → Owns objects (record (ask s info (some h)) { state = st })
unfolding alive after_call
asked_some objects s info h st e new =
    ap (λ l. (kind info, h) ∷ l) e ∙ ap (λ l. l ++ objects) (sym new)

-- what is not set yet, behind each step
abbrev pub AfterCache : VkState → Type 0
AfterCache st = st.descriptor_pool ≡ 0

abbrev pub AfterTransfer : VkState → Type 0
AfterTransfer st = (st.pipeline_cache ≡ 0) × AfterCache st

abbrev pub AfterCompute : VkState → Type 0
AfterCompute st = (st.transfer_cmd_pool ≡ 0) × AfterTransfer st

abbrev pub AfterGraphics : VkState → Type 0
AfterGraphics st = (st.compute_cmd_pool ≡ 0) × AfterCompute st

abbrev pub AfterDevice : VkState → Type 0
AfterDevice st = (st.graphics_cmd_pool ≡ 0) × AfterGraphics st

abbrev pub AfterInstance : VkState → Type 0
AfterInstance st = (st.device ≡ 0) × AfterDevice st

abbrev pub AfterNothing : VkState → Type 0
AfterNothing st = (st.debug_messenger ≡ 0) × AfterInstance st

module _ (st : VkState) (h : ℕ) (set : h ≢ 0) where
  pub held_descriptor_pool :
      AfterCache st → held (record st { descriptor_pool = h }) ≡ (a_descriptor_pool, h) ∷ held st
  unfolding held
  held_descriptor_pool u = ground arith

  pub held_pipeline_cache :
      AfterTransfer st → held (record st { pipeline_cache = h }) ≡ (a_pipeline_cache, h) ∷ held st
  unfolding held
  held_pipeline_cache u = ground arith

  pub held_transfer :
      AfterCompute st → held (record st { transfer_cmd_pool = h }) ≡ (a_command_pool, h) ∷ held st
  unfolding held
  held_transfer u = ground arith

  pub held_compute :
      AfterGraphics st → held (record st { compute_cmd_pool = h }) ≡ (a_command_pool, h) ∷ held st
  unfolding held
  held_compute u = ground arith

  pub held_graphics :
      AfterDevice st → held (record st { graphics_cmd_pool = h }) ≡ (a_command_pool, h) ∷ held st
  unfolding held
  held_graphics u = ground arith

  pub held_device : AfterInstance st → held (record st { device = h }) ≡ (a_device, h) ∷ held st
  unfolding held
  held_device u = ground arith

  pub held_messenger :
      AfterNothing st → held (record st { debug_messenger = h }) ≡ (a_messenger, h) ∷ held st
  unfolding held
  held_messenger u = ground arith

  pub held_instance :
      AfterNothing st
      → st.instance_handle ≡ 0
      → held (record st { instance_handle = h }) ≡ (an_instance, h) ∷ held st
  unfolding held
  held_instance u z = ground arith

module _ (st : VkState) where
  pub held_null_pool : AfterCache st → held (record st { descriptor_pool = 0 }) ≡ held st
  unfolding held
  held_null_pool u = ground arith

  pub held_null : st.pipeline_cache ≡ 0 → held (record st { pipeline_cache = 0 }) ≡ held st
  unfolding held
  held_null u = ground arith

  pub held_null_messenger :
      st.debug_messenger ≡ 0 → held (record st { debug_messenger = 0 }) ≡ held st
  unfolding held
  held_null_messenger u = ground arith
