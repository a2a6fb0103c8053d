-- ===== src/Vulkan/Init.antt =====
-- `gravity_vk_init` and the steps that it runs. A call that fails leaves its handle as it was.
use gravity_gpu_project.Prelude.{
  ℕ, Bool, true, false, ◌&&◌, Option, none, some, List, [], ◌∷◌, if◌then◌else◌,
}
use gravity_gpu_project.Vulkan.Calls.{
  Vulkan, Log, create, CreateInfo, instance_info, messenger_info, device_info, command_pool_info,
  pipeline_cache_info, descriptor_pool_info,
}
use gravity_gpu_project.Vulkan.State.{VkState}
use gravity_gpu_project.Vulkan.Families.{Families, find_queue_families, unique_families}
use gravity_gpu_project.Vulkan.Gpu.{Gpu, select_physical_device}

-- `memset(state, 0, sizeof(*state))`
abbrev pub zeroed_state : VkState
zeroed_state = record {
  instance_handle = 0;
  physical_device = 0;
  device = 0;
  graphics_queue = 0;
  compute_queue = 0;
  transfer_queue = 0;
  graphics_queue_family = 0;
  compute_queue_family = 0;
  transfer_queue_family = 0;
  graphics_cmd_pool = 0;
  compute_cmd_pool = 0;
  transfer_cmd_pool = 0;
  memory_types = [];
  debug_messenger = 0;
  validation_enabled = false;
  active_cmd_buf = 0;
  in_render_pass = false;
  pipeline_cache = 0;
  descriptor_pool = 0;
}

pub record Session : Type 0 where
  pub state : VkState
  pub log : Log

-- the result of a step, and `true` for its return value 0
abbrev pub Outcome : Type 0
Outcome = Bool × Session

-- a call that creates an object, and its answer
abbrev pub ask : Session → CreateInfo → Option ℕ → Session
ask s info answer = record s { log = create info answer ∷ s.log }

-- The machine: its devices, and whether the library has the two functions of the debug messenger.
pub record Platform : Type 0 where
  pub gpus : List Gpu
  pub has_create_messenger : Bool
  pub has_destroy_messenger : Bool

-- the answer, or VK_NULL_HANDLE
abbrev pub handle_or_null : Option ℕ → ℕ
handle_or_null none = 0
handle_or_null (some h) = h

-- `if (step(state) < 0) return -1;`
unfoldable pub and_then : Outcome → (Session → Outcome) → Outcome
and_then (false, s) next = (false, s)
and_then (true, s) next = next s

abbrev pub set_graphics : VkState → ℕ → VkState
set_graphics st h = record st { graphics_cmd_pool = h }

abbrev pub set_compute : VkState → ℕ → VkState
set_compute st h = record st { compute_cmd_pool = h }

abbrev pub set_transfer : VkState → ℕ → VkState
set_transfer st h = record st { transfer_cmd_pool = h }

module _ (vulkan : Vulkan) (platform : Platform) where
  unfoldable pub set_messenger : Bool → Session → Session
  set_messenger validation s =
      let answer = vulkan.creates s.log messenger_info in
      let asked = ask s messenger_info answer in
      if validation && platform.has_create_messenger
      then record asked { state = record s.state { debug_messenger = handle_or_null answer } }
      else s

  unfoldable pub instance_answered : Bool → Session → Option ℕ → Outcome
  unfolding set_messenger
  instance_answered validation s none = (false, s)
  instance_answered validation s (some h) =
      let made = record s { state = record s.state { instance_handle = h } } in
      let set = set_messenger validation made in
      (true, record set { state = record set.state { validation_enabled = validation } })

  unfoldable pub create_instance : Bool → Session → Outcome
  unfolding instance_answered
  create_instance validation s =
      let answer = vulkan.creates s.log (instance_info validation) in
      instance_answered validation (ask s (instance_info validation) answer) answer

  -- The code also stores the families it has when there is no graphics family; the state is not read
  -- after that.
  unfoldable pub families_found : Session → Option Families → Outcome
  families_found s none = (false, s)
  families_found s (some f) = (
    true,
    record s {
      state = record s.state {
        graphics_queue_family = f.graphics_family;
        compute_queue_family = f.compute_family;
        transfer_queue_family = f.transfer_family;
      };
    },
  )

  unfoldable pub gpu_chosen : Session → Option Gpu → Outcome
  unfolding families_found
  gpu_chosen s none = (false, s)
  gpu_chosen s (some g) =
      let st = record s.state { physical_device = g.handle; memory_types = g.memory_types } in
      families_found (record s { state = st }) (find_queue_families g.families)

  -- `select_physical_device` and `find_queue_families`
  unfoldable pub choose_device : Session → Outcome
  unfolding gpu_chosen
  choose_device s = gpu_chosen s (select_physical_device platform.gpus)

  unfoldable pub device_answered : Session → Option ℕ → Outcome
  device_answered s none = (false, s)
  device_answered s (some h) =
      let queue = vulkan.queue_of s.log in
      (
        true,
        record s {
          state = record s.state {
            device = h;
            graphics_queue = queue s.state.graphics_queue_family;
            compute_queue = queue s.state.compute_queue_family;
            transfer_queue = queue s.state.transfer_queue_family;
          };
        },
      )

  unfoldable pub create_logical_device : Session → Outcome
  unfolding device_answered
  create_logical_device s =
      let st = s.state in
      let families : Families = record {
        graphics_family = st.graphics_queue_family;
        compute_family = st.compute_queue_family;
        transfer_family = st.transfer_queue_family;
      } in
      let info = device_info (unique_families families) in
      let answer = vulkan.creates s.log info in device_answered (ask s info answer) answer

  unfoldable pub pool_answered : (VkState → ℕ → VkState) → Session → Option ℕ → Outcome
  pool_answered set s none = (false, s)
  pool_answered set s (some h) = (true, record s { state = set s.state h })

  -- a pool of a family, stored by `set`
  unfoldable pub create_pool : (VkState → ℕ → VkState) → ℕ → Session → Outcome
  unfolding pool_answered
  create_pool set family s =
      let info = command_pool_info family in
      let answer = vulkan.creates s.log info in pool_answered set (ask s info answer) answer

  unfoldable pub create_command_pools : Session → Outcome
  unfolding create_pool and_then
  create_command_pools s =
      let st = s.state in
      let graphics = create_pool set_graphics st.graphics_queue_family s in
      let compute = and_then graphics (create_pool set_compute st.compute_queue_family) in
      and_then compute (create_pool set_transfer st.transfer_queue_family)

  -- The cache and the descriptor pool may fail: their handles are then VK_NULL_HANDLE.
  unfoldable pub create_pipeline_cache : Session → Outcome
  create_pipeline_cache s =
      let answer = vulkan.creates s.log pipeline_cache_info in
      let st = record s.state { pipeline_cache = handle_or_null answer } in
      (true, record (ask s pipeline_cache_info answer) { state = st })

  unfoldable pub create_descriptor_pool : Session → Outcome
  create_descriptor_pool s =
      let answer = vulkan.creates s.log descriptor_pool_info in
      let st = record s.state { descriptor_pool = handle_or_null answer } in
      (true, record (ask s descriptor_pool_info answer) { state = st })

  unfoldable pub vk_init : Bool → Log → Outcome
  unfolding and_then create_instance choose_device create_logical_device create_command_pools
      create_pipeline_cache create_descriptor_pool
  vk_init validation log =
      let start : Session = record { state = zeroed_state; log = log } in
      let chosen = and_then (create_instance validation start) choose_device in
      let pools = and_then (and_then chosen create_logical_device) create_command_pools in
      and_then (and_then pools create_pipeline_cache) create_descriptor_pool
