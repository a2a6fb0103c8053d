-- ===== src/Tests/Vulkan.antt =====
-- A Vulkan library that numbers its objects, and what the daemon does with it.
use gravity_gpu_project.Prelude.{
  ℕ, suc, ◌+◌, ◌≡◌, true, false, some, List, [], ◌∷◌, ◌++◌, ◌⊎◌, ◌<◌, length, u32_max, arith,
}
use gravity_gpu_project.Translate.Flags.{MemoryProperties, no_properties}
use gravity_gpu_project.Vulkan.Calls.{Vulkan}
use gravity_gpu_project.Vulkan.Objects.{alive}
use gravity_gpu_project.Vulkan.Memory.{find_memory_type, Suits, find_memory_type-first}
use gravity_gpu_project.Vulkan.Families.{
  QueueFlags, find_queue_families, first_family, is_graphics, is_compute, is_transfer, by_search,
  find_queue_families-by_search,
}
use gravity_gpu_project.Vulkan.Init.{Platform, vk_init}
use gravity_gpu_project.Vulkan.Held.{held, NonNull}
use gravity_gpu_project.Vulkan.Leak.{vk_init-Owns}
use gravity_gpu_project.Commands.Host.{Machine}

abbrev pub vulkan : Vulkan
vulkan = record {
  creates = λ log info. some (suc (length log));
  requirements = λ log kind h. record { size = 64; memory_type_bits = 3 };
  maps = λ log memory size. some 4096;
  queue_of = λ log family. 100 + family;
  signals = λ log fence. true;
}

abbrev pub machine : Machine
machine = record {
  float_add = λ a b. a;
  float_neg = λ a. a;
  float_of_u32 = λ n. n;
  other_buffer = λ p. record { buffer = 0; memory = 0; size = 0; mapped = 0 };
  other_texture = λ p. record {
    image = 0;
    image_view = 0;
    memory = 0;
    width = 0;
    height = 0;
    depth = 0;
    mip_levels = 0;
    array_layers = 0;
    format = 0;
    current_layout = 0;
  };
  other_cmdbuf = λ p. record { cmd_buf = 0; fence = 0; recording = false; in_render_pass = false };
}

abbrev pub visible : MemoryProperties
visible = record no_properties { host_visible = true; host_coherent = true }

abbrev pub types : List MemoryProperties
types = record no_properties { device_local = true } ∷ visible ∷ []

abbrev queues : List QueueFlags
queues =
    record { graphics = false; compute = false; transfer = true }
    ∷ record { graphics = true; compute = true; transfer = true }
    ∷ []

abbrev pub platform : Platform
platform = record {
  gpus =
      record {
        handle = 1;
        vendor_id = 0x8086;
        is_integrated = true;
        memory_types = types;
        families = queues;
      }
      ∷ [];
  has_create_messenger = true;
  has_destroy_messenger = true;
}

find_memory_type-first_example :
    let k = find_memory_type types 3 visible in
    ((k ≡ u32_max) × ((j : ℕ) → Suits types 3 visible j → ⊥))
    ⊎ (Suits types 3 visible k × ((j : ℕ) → j < k → Suits types 3 visible j → ⊥))
find_memory_type-first_example = find_memory_type-first types 3 visible

find_queue_families-by_search_example :
    find_queue_families queues
    ≡ by_search
        (first_family is_graphics 0 queues)
        (first_family is_compute 0 queues)
        (first_family is_transfer 0 queues)
find_queue_families-by_search_example = find_queue_families-by_search queues (omega arith)

pub numbered : NonNull vulkan
numbered log info h e = ground arith

vk_init-Owns_example :
    let s = (vk_init vulkan platform true []).1 in alive s.log ≡ held s.state ++ alive []
vk_init-Owns_example = vk_init-Owns vulkan platform true [] numbered
