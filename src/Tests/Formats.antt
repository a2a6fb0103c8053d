-- ===== src/Tests/Formats.antt =====
-- The format lookups at concrete formats.
use gravity_gpu_project.Prelude.{true, false, ◌≡◌, ◌≢◌, ◌⊎◌, ◌↔◌, ◌*◌}
use gravity_gpu_project.Formats.Metal.{PixelFormat, pixel_format, pixel_invalid}
use gravity_gpu_project.Formats.State.{blend_blend_color, blend_factor}
use gravity_gpu_project.Formats.Pixel.{metal_to_vk_pixel_format, pixel_format_bpp}
use gravity_gpu_project.Formats.Convert.{to_vk_blend_factor}
use gravity_gpu_project.Formats.Meaning.{specified, texel_bits, is_a8, pixel_formats_agree}
use gravity_gpu_project.Formats.Range.{blend_factor_iff}

pixel_formats_agree_example :
    ((metal_to_vk_pixel_format 80 ≡ 0)
      × (pixel_format_bpp 80 ≡ 0)
      × ((f : PixelFormat) → f ≢ pixel_invalid → pixel_format f ≢ 80))
    ⊎ ((f : PixelFormat) × (pixel_format f ≡ 80)
        × ((metal_to_vk_pixel_format 80 ≡ specified f) ↔ (is_a8 f ≡ false))
        × (8 * pixel_format_bpp 80 ≡ texel_bits f))
pixel_formats_agree_example = pixel_formats_agree 80

blend_factor_iff_example :
    (to_vk_blend_factor (blend_factor blend_blend_color) ≡ 10) ↔ (true ≡ false)
blend_factor_iff_example = blend_factor_iff blend_blend_color
