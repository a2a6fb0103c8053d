-- ===== src/Vulkan/Leak.antt =====
-- `gravity_vk_init` on every path: the state names the objects that it has created.
use gravity_gpu_project.Prelude.{
  ℕ, ◌≡◌, ◌≢◌, refl, ap, ◌∙◌, sym, Bool, true, false, ◌&&◌, Option, none, some, List, ◌∷◌, ◌++◌,
  Bool-cases, arith, inl, inr,
}
use gravity_gpu_project.Vulkan.Calls.{
  Vulkan, Log, kind, a_command_pool, command_pool_info, pipeline_cache_info, descriptor_pool_info,
  messenger_info, instance_info, device_info,
}
use gravity_gpu_project.Vulkan.Objects.{Object, alive}
use gravity_gpu_project.Vulkan.State.{VkState}
use gravity_gpu_project.Vulkan.Families.{Families}
use gravity_gpu_project.Vulkan.Gpu.{Gpu}
use gravity_gpu_project.Vulkan.Init.{
  Platform, zeroed_state, Session, ask, handle_or_null, create_pool, pool_answered,
  create_command_pools, set_graphics, set_compute, set_transfer, create_pipeline_cache,
  create_descriptor_pool, create_logical_device, device_answered, choose_device, gpu_chosen,
  families_found, create_instance, instance_answered, set_messenger, vk_init,
}
use gravity_gpu_project.Vulkan.Held.{
  held, NonNull, Owns, Stage, chain, asked_none, asked_some, AfterCache, AfterTransfer,
  AfterCompute, AfterGraphics, AfterDevice, AfterInstance, AfterNothing, held_descriptor_pool,
  held_pipeline_cache, held_transfer, held_compute, held_graphics, held_device, held_messenger,
  held_instance, held_null, held_null_pool, held_null_messenger,
}

abbrev Done : VkState → Type 0
Done st = Unit {0}

module _ (vulkan : Vulkan) (platform : Platform) (objects : List Object) (nn : NonNull vulkan) where
  failed :
      (Later : VkState → Type 0) (s : Session) → Owns objects s → Stage Later objects (false, s)
  failed Later s owns = (owns, λ e. absurd (ground arith))

  pool_answered-Stage :
      (Later : VkState → Type 0) (set : VkState → ℕ → VkState) (family : ℕ) (s : Session)
      (answer : Option ℕ)
      → ((h : ℕ) → answer ≡ some h → h ≢ 0)
      → Owns objects s
      → ((h : ℕ) → h ≢ 0 → held (set s.state h) ≡ (a_command_pool, h) ∷ held s.state)
      → ((h : ℕ) → Later (set s.state h))
      → Stage Later objects
          (pool_answered vulkan platform set (ask s (command_pool_info family) answer) answer)
  unfolding pool_answered kind
  pool_answered-Stage Later set family s none set_ok owns names later =
      failed Later _ (asked_none objects s (command_pool_info family) owns)
  pool_answered-Stage Later set family s (some h) set_ok owns names later = (
    asked_some objects s (command_pool_info family) h (set s.state h) owns
        (names h (set_ok h refl)),
    λ e. later h,
  )

  pool-Stage :
      (Later : VkState → Type 0) (set : VkState → ℕ → VkState) (family : ℕ) (s : Session)
      → Owns objects s
      → ((h : ℕ) → h ≢ 0 → held (set s.state h) ≡ (a_command_pool, h) ∷ held s.state)
      → ((h : ℕ) → Later (set s.state h))
      → Stage Later objects (create_pool vulkan platform set family s)
  unfolding create_pool
  pool-Stage Later set family s =
      pool_answered-Stage Later set family s _ (nn s.log (command_pool_info family))

  pools-Stage :
      (s : Session)
      → Owns objects s
      → AfterDevice s.state
      → Stage AfterTransfer objects (create_command_pools vulkan platform s)
  unfolding create_command_pools
  pools-Stage s owns now =
      chain AfterCompute AfterTransfer objects _ _
        (chain AfterGraphics AfterCompute objects _ _
          (pool-Stage AfterGraphics set_graphics _ s owns (λ h n. held_graphics s.state h n now)
            (λ h. now.1))
          λ s₁ owns₁ u.
            pool-Stage AfterCompute set_compute _ s₁ owns₁ (λ h n. held_compute s₁.state h n u)
              (λ h. u.1))
        λ s₂ owns₂ u.
          pool-Stage AfterTransfer set_transfer _ s₂ owns₂ (λ h n. held_transfer s₂.state h n u)
            (λ h. u.1)

  cache_answered-Stage :
      (s : Session) (answer : Option ℕ)
      → ((h : ℕ) → answer ≡ some h → h ≢ 0)
      → Owns objects s
      → AfterTransfer s.state
      → Stage AfterCache objects (
        true,
        record (ask s pipeline_cache_info answer) {
          state = record s.state { pipeline_cache = handle_or_null answer };
        },
      )
  unfolding kind
  cache_answered-Stage s none set_ok owns now = (
    asked_none objects s pipeline_cache_info owns
        ∙ ap (λ l. l ++ objects) (sym (held_null s.state now.0)),
    λ e. now.1,
  )
  cache_answered-Stage s (some h) set_ok owns now = (
    asked_some objects s pipeline_cache_info h _ owns
        (held_pipeline_cache s.state h (set_ok h refl) now),
    λ e. now.1,
  )

  cache-Stage :
      (s : Session)
      → Owns objects s
      → AfterTransfer s.state
      → Stage AfterCache objects (create_pipeline_cache vulkan platform s)
  unfolding create_pipeline_cache
  cache-Stage s owns now = cache_answered-Stage s _ (nn s.log pipeline_cache_info) owns now

  pool_of_sets-Stage :
      (s : Session) (answer : Option ℕ)
      → ((h : ℕ) → answer ≡ some h → h ≢ 0)
      → Owns objects s
      → AfterCache s.state
      → Owns objects (record (ask s descriptor_pool_info answer) {
        state = record s.state { descriptor_pool = handle_or_null answer };
      })
  unfolding kind
  pool_of_sets-Stage s none set_ok owns now =
      asked_none objects s descriptor_pool_info owns
      ∙ ap (λ l. l ++ objects) (sym (held_null_pool s.state now))
  pool_of_sets-Stage s (some h) set_ok owns now =
      asked_some objects s descriptor_pool_info h _ owns
        (held_descriptor_pool s.state h (set_ok h refl) now)

  descriptor-Stage :
      (s : Session)
      → Owns objects s
      → AfterCache s.state
      → Stage Done objects (create_descriptor_pool vulkan platform s)
  unfolding create_descriptor_pool
  descriptor-Stage s owns now =
      (pool_of_sets-Stage s _ (nn s.log descriptor_pool_info) owns now, λ e. tt)

  device_answered-Stage :
      (s : Session) (families : List ℕ) (answer : Option ℕ)
      → ((h : ℕ) → answer ≡ some h → h ≢ 0)
      → Owns objects s
      → AfterInstance s.state
      → Stage AfterDevice objects
          (device_answered vulkan platform (ask s (device_info families) answer) answer)
  unfolding device_answered kind held
  device_answered-Stage s families none set_ok owns now =
      failed AfterDevice (ask s (device_info families) none)
        (asked_none objects s (device_info families) owns)
  device_answered-Stage s families (some h) set_ok owns now = (
    asked_some objects s (device_info families) h
        (device_answered vulkan platform (ask s (device_info families) (some h)) (some h)).1.state
        owns (held_device s.state h (set_ok h refl) now),
    λ e. now.1,
  )

  device-Stage :
      (s : Session)
      → Owns objects s
      → AfterInstance s.state
      → Stage AfterDevice objects (create_logical_device vulkan platform s)
  unfolding create_logical_device
  device-Stage s owns now = device_answered-Stage s _ _ (nn s.log (device_info _)) owns now

  families-Stage :
      (s : Session) (found : Option Families)
      → Owns objects s
      → AfterInstance s.state
      → Stage AfterInstance objects (families_found vulkan platform s found)
  unfolding families_found held
  families-Stage s none owns now = failed AfterInstance s owns
  families-Stage s (some f) owns now = (owns, λ e. now)

  chosen-Stage :
      (s : Session) (g : Option Gpu)
      → Owns objects s
      → AfterInstance s.state
      → Stage AfterInstance objects (gpu_chosen vulkan platform s g)
  unfolding gpu_chosen held
  chosen-Stage s none owns now = failed AfterInstance s owns
  chosen-Stage s (some g) owns now = families-Stage _ _ owns now

  choose-Stage :
      (s : Session)
      → Owns objects s
      → AfterInstance s.state
      → Stage AfterInstance objects (choose_device vulkan platform s)
  unfolding choose_device
  choose-Stage s owns now = chosen-Stage s _ owns now

  messenger_answered :
      (s : Session) (answer : Option ℕ)
      → ((h : ℕ) → answer ≡ some h → h ≢ 0)
      → Owns objects s
      → AfterNothing s.state
      → Owns objects (record (ask s messenger_info answer) {
        state = record s.state { debug_messenger = handle_or_null answer };
      })
  unfolding kind
  messenger_answered s none set_ok owns now =
      asked_none objects s messenger_info owns
      ∙ ap (λ l. l ++ objects) (sym (held_null_messenger s.state now.0))
  messenger_answered s (some h) set_ok owns now =
      asked_some objects s messenger_info h _ owns (held_messenger s.state h (set_ok h refl) now)

  messenger-Owns :
      (validation : Bool) (s : Session)
      → Owns objects s
      → AfterNothing s.state
      → Owns objects (set_messenger vulkan platform validation s)
        × AfterInstance (set_messenger vulkan platform validation s).state
  unfolding set_messenger
  messenger-Owns validation s owns now =
      elim (Bool-cases (validation && platform.has_create_messenger)) [
        | inl e ↦ rw e (messenger_answered s _ (nn s.log messenger_info) owns now, now.1)
        | inr e ↦ rw e (owns, now.1)
      ]

  instance_answered-Stage :
      (validation : Bool) (s : Session) (answer : Option ℕ)
      → ((h : ℕ) → answer ≡ some h → h ≢ 0)
      → Owns objects s
      → AfterNothing s.state
      → s.state.instance_handle ≡ 0
      → Stage AfterInstance objects (
          instance_answered vulkan platform validation
            (ask s (instance_info validation) answer)
            answer)
  unfolding instance_answered kind held
  instance_answered-Stage validation s none set_ok owns now zero =
      failed AfterInstance (ask s (instance_info validation) none)
        (asked_none objects s (instance_info validation) owns)
  instance_answered-Stage validation s (some h) set_ok owns now zero =
      let made : Session = record (ask s (instance_info validation) (some h)) {
        state = record s.state { instance_handle = h };
      } in
      let (owns', later) =
        messenger-Owns validation made
          (asked_some objects s (instance_info validation) h made.state owns
            (held_instance s.state h (set_ok h refl) now zero))
          now in
      (owns', λ e. later)

start_Owns : (log : Log) → alive log ≡ held zeroed_state ++ alive log
unfolding held
start_Owns log = refl

-- Whatever the Vulkan library answers, so long as it makes no object with a null handle, the
-- objects that `gravity_vk_init` has created and not destroyed are exactly those that the state
-- names, after a failure as after a success: a failed start leaves them all alive.
pub vk_init-Owns :
    (vulkan : Vulkan) (platform : Platform) (validation : Bool) (log : Log)
    → NonNull vulkan
    → let s = (vk_init vulkan platform validation log).1 in alive s.log ≡ held s.state ++ alive log
unfolding vk_init create_instance
vk_init-Owns vulkan platform validation log nn =
    let objects = alive log in
    (chain AfterCache Done objects _ _
      (chain AfterTransfer AfterCache objects _ _
        (chain AfterDevice AfterTransfer objects _ _
          (chain AfterInstance AfterDevice objects _ _
            (chain AfterInstance AfterInstance objects _ _
              (instance_answered-Stage vulkan platform objects nn validation
                (record { state = zeroed_state; log = log }) _ (nn log (instance_info validation))
                (start_Owns log) (refl, (refl, (refl, (refl, (refl, (refl, refl)))))) refl)
              (choose-Stage vulkan platform objects nn))
            (device-Stage vulkan platform objects nn))
          (pools-Stage vulkan platform objects nn))
        (cache-Stage vulkan platform objects nn))
      (descriptor-Stage vulkan platform objects nn)).0
