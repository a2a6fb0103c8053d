-- ===== src/Tests/Commands.antt =====
-- The handlers over an empty tracker, and over one with a command buffer.
use gravity_gpu_project.Prelude.{
  ℕ, ◌*◌, ◌≤◌, ◌<◌, ◌≡◌, ◌↔◌, refl, true, false, none, some, List, [], ◌∷◌, ◌++◌, if◌then◌else◌,
  max, arith,
}
use gravity_gpu_project.Protocol.Header.{cmd_init, header_bytes}
use gravity_gpu_project.Tracker.Resource.{ResourceType, CmdbufResource, of_cmdbuf}
use gravity_gpu_project.Tracker.Table.{init, update, get, find_slot, hash_handle, slot}
use gravity_gpu_project.Payload.Load.{max_color_attachments}
use gravity_gpu_project.Payload.Create.{CmdCreateBuffer, CmdCreateTexture}
use gravity_gpu_project.Payload.Pass.{load_render_begin}
use gravity_gpu_project.Vulkan.Objects.{alive}
use gravity_gpu_project.Vulkan.State.{VkState}
use gravity_gpu_project.Vulkan.Init.{zeroed_state}
use gravity_gpu_project.Commands.Host.{Host}
use gravity_gpu_project.Commands.Texture.{process_create_texture, texture_image_info, is_cube}
use gravity_gpu_project.Commands.Buffer.{process_create_buffer}
use gravity_gpu_project.Commands.Pass.{render_begin}
use gravity_gpu_project.Commands.Owned.{Accounted}
use gravity_gpu_project.Commands.Owned.Texture.{process_create_texture-Accounted}
use gravity_gpu_project.Commands.Owned.Buffer.{process_create_buffer-Accounted}
use gravity_gpu_project.Commands.Bounds.{texture_image_info-bounds}
use gravity_gpu_project.Commands.Overrun.{render_begin-undefined}
use gravity_gpu_project.Tests.Ring.{ring, shm}
use gravity_gpu_project.Tests.Vulkan.{vulkan, machine, types}

abbrev pub vk : VkState
vk = record zeroed_state { graphics_queue = 9; memory_types = types }

abbrev host : Host
host = record { tracker = init; log = [] }

-- a cube of BGRA8, with four samples
abbrev cube : CmdCreateTexture
cube = record {
  hdr = cmd_init 0x0210 84 1;
  handle = 7;
  texture_type = 5;
  pixel_format = 80;
  width = 16;
  height = 16;
  depth = 0;
  mipmap_levels = 0;
  array_length = 1;
  sample_count = 3;
  storage_mode = 2;
  usage = 4;
  data_offset = 0;
  data_size = 0;
}

process_create_texture-Accounted_example :
    Accounted init (alive []) 7 ResourceType.texture (process_create_texture vulkan vk cube host)
process_create_texture-Accounted_example = process_create_texture-Accounted vulkan vk cube host

-- a shared buffer with initial data
abbrev block : CmdCreateBuffer
block = record {
  hdr = cmd_init 0x0200 52 1;
  handle = 8;
  size = 64;
  storage_mode = 0;
  usage = 0;
  data_offset = 200;
  data_size = 4;
}

process_create_buffer-Accounted_example :
    Accounted init
      (alive [])
      8
      ResourceType.buffer
      (process_create_buffer vulkan vk ring shm block host)
process_create_buffer-Accounted_example =
    process_create_buffer-Accounted vulkan vk ring shm block host

texture_image_info-bounds_example :
    let info = texture_image_info cube 44 in
    (1 ≤ info.width)
    × (1 ≤ info.height)
    × (1 ≤ info.depth)
    × (1 ≤ info.mip_levels)
    × (info.array_layers ≡ (if is_cube 5 then 6 else 1) * max 1 1)
    × (3 ≤ info.samples)
    × (info.samples < 2 * 3)
texture_image_info-bounds_example =
    texture_image_info-bounds cube 44 (omega arith) (omega arith) (omega arith)

-- a command buffer in entry 2, with handle 6
abbrev pub recorded : CmdbufResource
recorded = record { cmd_buf = 21; fence = 22; recording = true; in_render_pass = false }

abbrev pub busy : Host
busy = record {
  tracker = record init {
    entries = update init.entries 2 (record {
      handle = 6;
      type = ResourceType.cmdbuf;
      ref_count = 1;
      in_use = true;
      payload = of_cmdbuf recorded;
    });
    hash_table = λ r. 2;
  };
  log = [];
}

pub found : get busy.tracker 6 ≡ some 2
unfolding get find_slot hash_handle slot
found = refl

-- nine color attachments for the command buffer with handle 6
abbrev crowd : List ℕ
crowd = header_bytes (cmd_init 0x0600 384 1) ++ (6 ∷ 0 ∷ 0 ∷ 0 ∷ 9 ∷ [])

render_begin-undefined_example :
    (render_begin machine (load_render_begin crowd) busy ≡ none)
    ↔ (((i : ℕ) × (get busy.tracker 6 ≡ some i)) × (max_color_attachments < 9))
unfolding header_bytes cmd_init load_render_begin
render_begin-undefined_example = render_begin-undefined machine crowd busy
