-- ===== src/Translate/Flags.antt =====
-- The functions of host-daemon/src/metal_to_vulkan.c. A set of Vulkan flags is a record with a field
-- for each flag that the code uses, and a Vulkan enumeration a data type of the values it uses.
use gravity_gpu_project.Prelude.{
  ℕ, Bool, true, false, not, ◌&&◌, ◌||◌, ◌==◌, if◌then◌else◌, bit_and,
}
use gravity_gpu_project.Formats.Metal.{
  texture_type, texture_1d, texture_1d_array, texture_2d, texture_2d_array, texture_2d_ms,
  texture_cube, texture_cube_array, texture_3d, storage_mode, storage_shared, storage_managed,
  storage_private, storage_memoryless,
}
use gravity_gpu_project.Formats.Vulkan.{
  vk_format, gvk_d16_unorm, gvk_d32_sfloat, gvk_s8_uint, gvk_d24_unorm_s8_uint,
  gvk_d32_sfloat_s8_uint,
}
use gravity_gpu_project.Formats.Pixel.{pixel_format_is_depth_stencil}

-- `VkImageUsageFlags`
pub record ImageUsage : Type 0 where
  pub transfer_src : Bool
  pub transfer_dst : Bool
  pub sampled : Bool
  pub storage : Bool
  pub color_attachment : Bool
  pub depth_stencil_attachment : Bool

-- MTL_TEXTURE_USAGE_SHADER_READ, _SHADER_WRITE and _RENDER_TARGET
abbrev pub shader_read : ℕ
shader_read = 0x01

abbrev pub shader_write : ℕ
shader_write = 0x02

abbrev pub render_target : ℕ
render_target = 0x04

-- `metal_usage & flag`
abbrev pub has : ℕ → ℕ → Bool
has metal_usage flag = not (bit_and metal_usage flag == 0)

unfoldable pub translate_texture_usage : ℕ → ℕ → ImageUsage
translate_texture_usage metal_usage format =
    let depth = pixel_format_is_depth_stencil format in
    let general = metal_usage == 0 in
    record {
      transfer_src = true;
      transfer_dst = true;
      sampled = has metal_usage shader_read || general;
      storage = has metal_usage shader_write;
      color_attachment = (has metal_usage render_target && not depth) || general;
      depth_stencil_attachment = has metal_usage render_target && depth;
    }

-- `VkMemoryPropertyFlags`
pub record MemoryProperties : Type 0 where
  pub device_local : Bool
  pub host_visible : Bool
  pub host_coherent : Bool
  pub host_cached : Bool
  pub lazily_allocated : Bool

abbrev pub no_properties : MemoryProperties
no_properties = record {
  device_local = false;
  host_visible = false;
  host_coherent = false;
  host_cached = false;
  lazily_allocated = false;
}

unfoldable pub translate_storage_mode : ℕ → MemoryProperties
translate_storage_mode mode =
    if mode == storage_mode storage_shared
    then record no_properties { host_visible = true; host_coherent = true }
    else if mode == storage_mode storage_managed
    then record no_properties { host_visible = true; host_cached = true }
    else if mode == storage_mode storage_private
    then record no_properties { device_local = true }
    else if mode == storage_mode storage_memoryless
    then record no_properties { device_local = true; lazily_allocated = true }
    else record no_properties { device_local = true }

-- `VkImageType` and `VkImageViewType`
pub data ImageType : Type 0 where
  image_1d image_2d image_3d : ImageType

pub data ImageViewType : Type 0 where
  view_1d view_2d view_3d view_cube view_1d_array view_2d_array view_cube_array : ImageViewType

unfoldable pub translate_texture_type : ℕ → ImageType
translate_texture_type type =
    if type == texture_type texture_1d || type == texture_type texture_1d_array
    then image_1d
    else if type == texture_type texture_2d
        || (type == texture_type texture_2d_array
            || (type == texture_type texture_2d_ms
                || (type == texture_type texture_cube || type == texture_type texture_cube_array)))
    then image_2d
    else if type == texture_type texture_3d
    then image_3d
    else image_2d

unfoldable pub translate_image_view_type : ℕ → ImageViewType
translate_image_view_type type =
    if type == texture_type texture_1d
    then view_1d
    else if type == texture_type texture_1d_array
    then view_1d_array
    else if type == texture_type texture_2d || type == texture_type texture_2d_ms
    then view_2d
    else if type == texture_type texture_2d_array
    then view_2d_array
    else if type == texture_type texture_cube
    then view_cube
    else if type == texture_type texture_cube_array
    then view_cube_array
    else if type == texture_type texture_3d
    then view_3d
    else view_2d

-- `VkImageAspectFlags`
pub record Aspects : Type 0 where
  pub color : Bool
  pub depth : Bool
  pub stencil : Bool

unfoldable pub get_aspect_flags : ℕ → Aspects
get_aspect_flags format =
    if format == vk_format gvk_d16_unorm || format == vk_format gvk_d32_sfloat
    then record { color = false; depth = true; stencil = false }
    else if format == vk_format gvk_s8_uint
    then record { color = false; depth = false; stencil = true }
    else if format == vk_format gvk_d24_unorm_s8_uint || format == vk_format gvk_d32_sfloat_s8_uint
    then record { color = false; depth = true; stencil = true }
    else record { color = true; depth = false; stencil = false }
