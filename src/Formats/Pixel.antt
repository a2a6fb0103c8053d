-- ===== src/Formats/Pixel.antt =====
-- The pixel format table of protocol/src/gravity_formats.c and its lookups. A format is the number
-- that came over the wire, which may be none of the enumeration.
use Prim.Native.String.{String}
use gravity_gpu_project.Prelude.{ℕ, List, [], ◌∷◌, Bool, ◌&&◌, ◌==◌, leb, if◌then◌else◌}
use gravity_gpu_project.Formats.Metal.{
  PixelFormat, pixel_format, pixel_a8_unorm, pixel_r8_unorm, pixel_r8_snorm, pixel_r8_uint,
  pixel_r16_uint, pixel_r16_float, pixel_rg8_unorm, pixel_rg8_snorm, pixel_r32_uint,
  pixel_r32_float, pixel_rg16_uint, pixel_rg16_float, pixel_rgba8_unorm, pixel_rgba8_unorm_srgb,
  pixel_rgba8_snorm, pixel_rgba8_uint, pixel_bgra8_unorm, pixel_bgra8_unorm_srgb,
  pixel_rgb10a2_unorm, pixel_rg32_uint, pixel_rg32_float, pixel_rgba16_uint, pixel_rgba16_float,
  pixel_rgba32_uint, pixel_rgba32_float, pixel_depth16_unorm, pixel_depth32_float, pixel_stencil8,
  pixel_depth24_stencil8, pixel_depth32_float_stencil8,
}
use gravity_gpu_project.Formats.Vulkan.{
  VkFormat, vk_format, gvk_a8_unorm, gvk_r8_unorm, gvk_r8_snorm, gvk_r8_uint, gvk_r16_uint,
  gvk_r16_sfloat, gvk_r8g8_unorm, gvk_r8g8_snorm, gvk_r32_uint, gvk_r32_sfloat, gvk_r16g16_uint,
  gvk_r16g16_sfloat, gvk_r8g8b8a8_unorm, gvk_r8g8b8a8_srgb, gvk_r8g8b8a8_snorm, gvk_r8g8b8a8_uint,
  gvk_b8g8r8a8_unorm, gvk_b8g8r8a8_srgb, gvk_a2b10g10r10_unorm_pack32, gvk_r32g32_uint,
  gvk_r32g32_sfloat, gvk_r16g16b16a16_uint, gvk_r16g16b16a16_sfloat, gvk_r32g32b32a32_uint,
  gvk_r32g32b32a32_sfloat, gvk_d16_unorm, gvk_d32_sfloat, gvk_s8_uint, gvk_d24_unorm_s8_uint,
  gvk_d32_sfloat_s8_uint, gvk_undefined,
}

-- `gravity_format_entry_t`
pub record FormatEntry : Type 0 where
  pub metal_format : PixelFormat
  pub vk_format_of : VkFormat
  pub name : String
  pub bytes_per_pixel : ℕ

abbrev row : PixelFormat → VkFormat → String → ℕ → FormatEntry
row m v s n = record { metal_format = m; vk_format_of = v; name = s; bytes_per_pixel = n }

abbrev pub pixel_format_table : List FormatEntry
pixel_format_table =
    row pixel_a8_unorm gvk_a8_unorm "A8Unorm" 1
    ∷ row pixel_r8_unorm gvk_r8_unorm "R8Unorm" 1
    ∷ row pixel_r8_snorm gvk_r8_snorm "R8Snorm" 1
    ∷ row pixel_r8_uint gvk_r8_uint "R8Uint" 1
    ∷ row pixel_r16_uint gvk_r16_uint "R16Uint" 2
    ∷ row pixel_r16_float gvk_r16_sfloat "R16Float" 2
    ∷ row pixel_rg8_unorm gvk_r8g8_unorm "RG8Unorm" 2
    ∷ row pixel_rg8_snorm gvk_r8g8_snorm "RG8Snorm" 2
    ∷ row pixel_r32_uint gvk_r32_uint "R32Uint" 4
    ∷ row pixel_r32_float gvk_r32_sfloat "R32Float" 4
    ∷ row pixel_rg16_uint gvk_r16g16_uint "RG16Uint" 4
    ∷ row pixel_rg16_float gvk_r16g16_sfloat "RG16Float" 4
    ∷ row pixel_rgba8_unorm gvk_r8g8b8a8_unorm "RGBA8Unorm" 4
    ∷ row pixel_rgba8_unorm_srgb gvk_r8g8b8a8_srgb "RGBA8Unorm_sRGB" 4
    ∷ row pixel_rgba8_snorm gvk_r8g8b8a8_snorm "RGBA8Snorm" 4
    ∷ row pixel_rgba8_uint gvk_r8g8b8a8_uint "RGBA8Uint" 4
    ∷ row pixel_bgra8_unorm gvk_b8g8r8a8_unorm "BGRA8Unorm" 4
    ∷ row pixel_bgra8_unorm_srgb gvk_b8g8r8a8_srgb "BGRA8Unorm_sRGB" 4
    ∷ row pixel_rgb10a2_unorm gvk_a2b10g10r10_unorm_pack32 "RGB10A2Unorm" 4
    ∷ row pixel_rg32_uint gvk_r32g32_uint "RG32Uint" 8
    ∷ row pixel_rg32_float gvk_r32g32_sfloat "RG32Float" 8
    ∷ row pixel_rgba16_uint gvk_r16g16b16a16_uint "RGBA16Uint" 8
    ∷ row pixel_rgba16_float gvk_r16g16b16a16_sfloat "RGBA16Float" 8
    ∷ row pixel_rgba32_uint gvk_r32g32b32a32_uint "RGBA32Uint" 16
    ∷ row pixel_rgba32_float gvk_r32g32b32a32_sfloat "RGBA32Float" 16
    ∷ row pixel_depth16_unorm gvk_d16_unorm "Depth16Unorm" 2
    ∷ row pixel_depth32_float gvk_d32_sfloat "Depth32Float" 4
    ∷ row pixel_stencil8 gvk_s8_uint "Stencil8" 1
    ∷ row pixel_depth24_stencil8 gvk_d24_unorm_s8_uint "Depth24Unorm_Stencil8" 4
    ∷ row pixel_depth32_float_stencil8 gvk_d32_sfloat_s8_uint "Depth32Float_Stencil8" 5
    ∷ []

-- the loops of the two lookups, over the rest of the table
abbrev pub find_vk_format : List FormatEntry → ℕ → ℕ
find_vk_format [] fmt = vk_format gvk_undefined
find_vk_format (e ∷ es) fmt =
    let rest = find_vk_format es fmt in
    if pixel_format e.metal_format == fmt then vk_format e.vk_format_of else rest

abbrev pub find_bpp : List FormatEntry → ℕ → ℕ
find_bpp [] fmt = 0
find_bpp (e ∷ es) fmt =
    let rest = find_bpp es fmt in
    if pixel_format e.metal_format == fmt then e.bytes_per_pixel else rest

unfoldable pub metal_to_vk_pixel_format : ℕ → ℕ
metal_to_vk_pixel_format fmt = find_vk_format pixel_format_table fmt

unfoldable pub pixel_format_bpp : ℕ → ℕ
pixel_format_bpp fmt = find_bpp pixel_format_table fmt

unfoldable pub pixel_format_is_depth_stencil : ℕ → Bool
pixel_format_is_depth_stencil fmt =
    leb (pixel_format pixel_depth16_unorm) fmt
    && leb fmt (pixel_format pixel_depth32_float_stencil8)
