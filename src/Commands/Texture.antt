-- ===== src/Commands/Texture.antt =====
-- `gravity_cmd_process_create_texture`.
use gravity_gpu_project.Prelude.{
  ℕ, Bool, ◌||◌, Option, none, some, if◌then◌else◌, ltb, leb, ◌==◌, true, mul32, u32_max,
}
use gravity_gpu_project.Tracker.Resource.{of_texture, ResourceType}
use gravity_gpu_project.Tracker.Table.{add}
use gravity_gpu_project.Formats.Metal.{texture_type, texture_cube, texture_cube_array}
use gravity_gpu_project.Formats.Vulkan.{vk_format, gvk_undefined}
use gravity_gpu_project.Formats.Pixel.{metal_to_vk_pixel_format}
use gravity_gpu_project.Translate.Flags.{
  no_properties, translate_storage_mode, translate_texture_type, translate_texture_usage,
  translate_image_view_type, get_aspect_flags,
}
use gravity_gpu_project.Payload.Create.{CmdCreateTexture}
use gravity_gpu_project.Vulkan.Calls.{
  Vulkan, ImageInfo, ImageViewInfo, image_info, image_view_info, memory_info, create, destroy,
  bind_memory, an_image, an_image_view, a_memory, layout_undefined,
}
use gravity_gpu_project.Vulkan.Memory.{find_memory_type}
use gravity_gpu_project.Vulkan.State.{VkState}
use gravity_gpu_project.Commands.Host.{Host, call, with_payload}

-- `n > 0 ? n : 1`
abbrev pub at_least_one : ℕ → ℕ
at_least_one n = if ltb 0 n then n else 1

-- the sample count of the image
unfoldable pub samples_for : ℕ → ℕ
samples_for count =
    if ltb 1 count
    then (if leb count 2 then 2 else if leb count 4 then 4 else if leb count 8 then 8 else 16)
    else 1

unfoldable pub is_cube : ℕ → Bool
is_cube type = type == texture_type texture_cube || type == texture_type texture_cube_array

-- `img_info`, with the cases of cube maps and of several samples
unfoldable pub texture_image_info : CmdCreateTexture → ℕ → ImageInfo
unfolding samples_for is_cube
texture_image_info cmd format =
    let layers = at_least_one cmd.array_length in
    let cube = is_cube cmd.texture_type in
    record {
      image_type = translate_texture_type cmd.texture_type;
      format = format;
      width = at_least_one cmd.width;
      height = at_least_one cmd.height;
      depth = at_least_one cmd.depth;
      mip_levels = at_least_one cmd.mipmap_levels;
      array_layers = if cube then mul32 layers 6 else layers;
      samples = samples_for cmd.sample_count;
      usage = translate_texture_usage cmd.usage cmd.pixel_format;
      cube_compatible = cube;
    }

-- the type asked for, or else any that is local to the device
unfoldable pub texture_memory_type : VkState → ℕ → ℕ → ℕ
texture_memory_type vk bits mode =
    let mem_type = find_memory_type vk.memory_types bits (translate_storage_mode mode) in
    if mem_type == u32_max
    then find_memory_type vk.memory_types bits (record no_properties { device_local = true })
    else mem_type

module _ (vulkan : Vulkan) (vk : VkState) (cmd : CmdCreateTexture) where
  abbrev pub format : ℕ
  format = metal_to_vk_pixel_format cmd.pixel_format

  abbrev pub info : ImageInfo
  info = texture_image_info cmd format

  abbrev pub view_info : ℕ → ImageViewInfo
  view_info image = record {
    image = image;
    view_type = translate_image_view_type cmd.texture_type;
    format = format;
    aspects = get_aspect_flags format;
    level_count = info.mip_levels;
    layer_count = info.array_layers;
  }

  -- with the image, its memory and its view created
  unfoldable pub track_texture : Host → ℕ → ℕ → ℕ → Host
  track_texture host image memory image_view =
      elim (add host.tracker cmd.handle ResourceType.texture) [
        | none ↦
            let host₁ = call host (destroy an_image_view image_view) in
            call (call host₁ (destroy a_memory memory)) (destroy an_image image)
        | some (i, tracker) ↦
            let filled = of_texture (record {
              image = image;
              image_view = image_view;
              memory = memory;
              width = cmd.width;
              height = cmd.height;
              depth = cmd.depth;
              mip_levels = info.mip_levels;
              array_layers = info.array_layers;
              format = format;
              current_layout = layout_undefined;
            }) in
            record host { tracker = with_payload tracker i filled }
      ]

  -- with the image created, its memory bound, and the answer to the creation of the view
  unfoldable pub view_answered : Host → ℕ → ℕ → Option ℕ → Host
  unfolding track_texture
  view_answered host image memory none =
      call (call host (destroy a_memory memory)) (destroy an_image image)
  view_answered host image memory (some image_view) = track_texture host image memory image_view

  unfoldable pub view_texture : Host → ℕ → ℕ → Host
  unfolding view_answered
  view_texture host image memory =
      let request = image_view_info (view_info image) in
      let answer = vulkan.creates host.log request in
      view_answered (call host (create request answer)) image memory answer

  -- with the image created, and the answer to the allocation of its memory
  unfoldable pub memory_answered : Host → ℕ → Option ℕ → Host
  unfolding view_texture
  memory_answered host image none = call host (destroy an_image image)
  memory_answered host image (some memory) =
      view_texture (call host (bind_memory an_image image memory)) image memory

  unfoldable pub allocate_texture : Host → ℕ → Host
  unfolding memory_answered
  allocate_texture host image =
      let reqs = vulkan.requirements host.log an_image image in
      let request = memory_info (record {
        allocation_size = reqs.size;
        memory_type_index = texture_memory_type vk reqs.memory_type_bits cmd.storage_mode;
      }) in
      let answer = vulkan.creates host.log request in
      memory_answered (call host (create request answer)) image answer

  -- with the answer to the creation of the image
  unfoldable pub image_answered : Host → Option ℕ → Host
  unfolding allocate_texture
  image_answered host none = host
  image_answered host (some image) = allocate_texture host image

  unfoldable pub process_create_texture : Host → Host
  unfolding image_answered
  process_create_texture host =
      let request = image_info info in
      let answer = vulkan.creates host.log request in
      if format == vk_format gvk_undefined
      then host
      else image_answered (call host (create request answer)) answer
