-- ===== src/Vulkan/State.antt =====
-- `gravity_vk_state_t` of host-daemon/src/vk_device.h. The name, the properties and the features of
-- the device are only printed; of the memory properties the model keeps the flags of each type.
use gravity_gpu_project.Prelude.{ℕ, Bool, List}
use gravity_gpu_project.Translate.Flags.{MemoryProperties}

pub record VkState : Type 0 where
  pub instance_handle : ℕ
  pub physical_device : ℕ
  pub device : ℕ
  pub graphics_queue : ℕ
  pub compute_queue : ℕ
  pub transfer_queue : ℕ
  pub graphics_queue_family : ℕ
  pub compute_queue_family : ℕ
  pub transfer_queue_family : ℕ
  pub graphics_cmd_pool : ℕ
  pub compute_cmd_pool : ℕ
  pub transfer_cmd_pool : ℕ
  pub memory_types : List MemoryProperties
  pub debug_messenger : ℕ
  pub validation_enabled : Bool
  pub active_cmd_buf : ℕ
  pub in_render_pass : Bool
  pub pipeline_cache : ℕ
  pub descriptor_pool : ℕ
