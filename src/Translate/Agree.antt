-- ===== src/Translate/Agree.antt =====
-- The translations agree with one another and with the format table.
use gravity_gpu_project.Prelude.{
  ap, ◌∙◌, ◌||◌, ◌⊎◌, inl, inr, ℕ_discrete, ℕ, ◌≡◌, refl, Bool, false, not, ◌&&◌, ◌==◌, arith,
}
use gravity_gpu_project.Prelude.Bits.{bit_and-zero}
use gravity_gpu_project.Formats.Metal.{
  PixelFormat, pixel_format, pixel_invalid, pixel_a8_unorm, pixel_r8_unorm, pixel_r8_snorm,
  pixel_r8_uint, pixel_r16_uint, pixel_r16_float, pixel_rg8_unorm, pixel_rg8_snorm, pixel_r32_uint,
  pixel_r32_float, pixel_rg16_uint, pixel_rg16_float, pixel_rgba8_unorm, pixel_rgba8_unorm_srgb,
  pixel_rgba8_snorm, pixel_rgba8_uint, pixel_bgra8_unorm, pixel_bgra8_unorm_srgb,
  pixel_rgb10a2_unorm, pixel_rg32_uint, pixel_rg32_float, pixel_rgba16_uint, pixel_rgba16_float,
  pixel_rgba32_uint, pixel_rgba32_float, pixel_depth16_unorm, pixel_depth32_float, pixel_stencil8,
  pixel_depth24_stencil8, pixel_depth32_float_stencil8,
}
use gravity_gpu_project.Formats.Pixel.{metal_to_vk_pixel_format, pixel_format_is_depth_stencil}
use gravity_gpu_project.Translate.Flags.{
  ImageType, image_1d, image_2d, image_3d, ImageViewType, view_1d, view_2d, view_3d, view_cube,
  view_1d_array, view_2d_array, view_cube_array, translate_texture_type, translate_image_view_type,
  translate_texture_usage, has, render_target, get_aspect_flags,
}

-- the image type that Vulkan requires under a view
abbrev pub viewed : ImageViewType → ImageType
viewed view_1d = image_1d
viewed view_1d_array = image_1d
viewed view_3d = image_3d
viewed view_2d = image_2d
viewed view_2d_array = image_2d
viewed view_cube = image_2d
viewed view_cube_array = image_2d

-- For every number, the image view type that the daemon chooses is one that Vulkan allows on the
-- image type that it chooses.
pub view_fits_image :
    (type : ℕ) → viewed (translate_image_view_type type) ≡ translate_texture_type type
unfolding translate_texture_type translate_image_view_type
view_fits_image type = ground arith

no_target : (metal_usage : ℕ) → metal_usage ≡ 0 → has metal_usage render_target ≡ false
no_target metal_usage e =
    ap (λ n. has n render_target) e ∙ ap (λ n. not (n == 0)) (bit_and-zero render_target)

-- the two attachment flags as they follow from a render target flag `r`, a depth format `d` and no
-- usage at all, `z`
flags_lem :
    (r d z : Bool)
    → (z ≡ false) ⊎ (r ≡ false)
    → ((((r && d) && ((r && not d) || z))) ≡ false)
      × (((r && d) && not d) ≡ false)
      × ((((r && not d) || z) && d) ≡ (z && d))
flags_lem r d z h = ground arith

-- For every usage and format, a texture is never both kinds of attachment, a depth-stencil
-- attachment never has another format, and a color attachment has a depth or stencil format
-- exactly when it was asked for with no usage at all.
pub attachments_lem :
    (metal_usage format : ℕ)
    → (((translate_texture_usage metal_usage format).depth_stencil_attachment
          && (translate_texture_usage metal_usage format).color_attachment)
        ≡ false)
      × (((translate_texture_usage metal_usage format).depth_stencil_attachment
            && not (pixel_format_is_depth_stencil format))
          ≡ false)
      × (((translate_texture_usage metal_usage format).color_attachment
            && pixel_format_is_depth_stencil format)
          ≡ ((metal_usage == 0) && pixel_format_is_depth_stencil format))
unfolding translate_texture_usage
attachments_lem metal_usage format =
    flags_lem (has metal_usage render_target) (pixel_format_is_depth_stencil format)
      (metal_usage == 0)
      (elim (ℕ_discrete metal_usage 0) [
        | yes e ↦ inr (no_target metal_usage e)
        | no ne ↦ inl (ground arith)
      ])

-- For every pixel format of the enumeration, the aspect flags of its Vulkan format include the
-- color aspect just when `gravity_pixel_format_is_depth_stencil` is false.
pub aspects_agree :
    (f : PixelFormat)
    → (get_aspect_flags (metal_to_vk_pixel_format (pixel_format f))).color
      ≡ not (pixel_format_is_depth_stencil (pixel_format f))
unfolding get_aspect_flags metal_to_vk_pixel_format pixel_format_is_depth_stencil
aspects_agree pixel_invalid = refl
aspects_agree pixel_a8_unorm = refl
aspects_agree pixel_r8_unorm = refl
aspects_agree pixel_r8_snorm = refl
aspects_agree pixel_r8_uint = refl
aspects_agree pixel_r16_uint = refl
aspects_agree pixel_r16_float = refl
aspects_agree pixel_rg8_unorm = refl
aspects_agree pixel_rg8_snorm = refl
aspects_agree pixel_r32_uint = refl
aspects_agree pixel_r32_float = refl
aspects_agree pixel_rg16_uint = refl
aspects_agree pixel_rg16_float = refl
aspects_agree pixel_rgba8_unorm = refl
aspects_agree pixel_rgba8_unorm_srgb = refl
aspects_agree pixel_rgba8_snorm = refl
aspects_agree pixel_rgba8_uint = refl
aspects_agree pixel_bgra8_unorm = refl
aspects_agree pixel_bgra8_unorm_srgb = refl
aspects_agree pixel_rgb10a2_unorm = refl
aspects_agree pixel_rg32_uint = refl
aspects_agree pixel_rg32_float = refl
aspects_agree pixel_rgba16_uint = refl
aspects_agree pixel_rgba16_float = refl
aspects_agree pixel_rgba32_uint = refl
aspects_agree pixel_rgba32_float = refl
aspects_agree pixel_depth16_unorm = refl
aspects_agree pixel_depth32_float = refl
aspects_agree pixel_stencil8 = refl
aspects_agree pixel_depth24_stencil8 = refl
aspects_agree pixel_depth32_float_stencil8 = refl
