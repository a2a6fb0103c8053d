-- ===== src/Formats/Meaning.antt =====
-- The pixel formats against the numbers of the Vulkan specification and the sizes of their channels.
use gravity_gpu_project.Prelude.{
  ℕ, ◌+◌, ◌*◌, ◌≡◌, ◌≢◌, ◌⊎◌, ◌↔◌, refl, subst, ◌∙◌, ap, inl, inr, Bool, true, false, arith,
}
use gravity_gpu_project.Formats.Metal.{
  PixelFormat, pixel_format, pixel_invalid, pixel_a8_unorm, pixel_r8_unorm, pixel_r8_snorm,
  pixel_r8_uint, pixel_r16_uint, pixel_r16_float, pixel_rg8_unorm, pixel_rg8_snorm, pixel_r32_uint,
  pixel_r32_float, pixel_rg16_uint, pixel_rg16_float, pixel_rgba8_unorm, pixel_rgba8_unorm_srgb,
  pixel_rgba8_snorm, pixel_rgba8_uint, pixel_bgra8_unorm, pixel_bgra8_unorm_srgb,
  pixel_rgb10a2_unorm, pixel_rg32_uint, pixel_rg32_float, pixel_rgba16_uint, pixel_rgba16_float,
  pixel_rgba32_uint, pixel_rgba32_float, pixel_depth16_unorm, pixel_depth32_float, pixel_stencil8,
  pixel_depth24_stencil8, pixel_depth32_float_stencil8,
}
use gravity_gpu_project.Formats.Pixel.{metal_to_vk_pixel_format, pixel_format_bpp}
use gravity_gpu_project.Formats.Lookup.{pixel_lookup_cases, pixel_lookup_complete}

-- the number of the format of the same name in the Vulkan specification
abbrev pub specified : PixelFormat → ℕ
specified pixel_invalid = 0
specified pixel_a8_unorm = 1000470001
specified pixel_r8_unorm = 9
specified pixel_r8_snorm = 10
specified pixel_r8_uint = 13
specified pixel_r16_uint = 74
specified pixel_r16_float = 76
specified pixel_rg8_unorm = 16
specified pixel_rg8_snorm = 17
specified pixel_r32_uint = 98
specified pixel_r32_float = 100
specified pixel_rg16_uint = 81
specified pixel_rg16_float = 83
specified pixel_rgba8_unorm = 37
specified pixel_rgba8_unorm_srgb = 43
specified pixel_rgba8_snorm = 38
specified pixel_rgba8_uint = 41
specified pixel_bgra8_unorm = 44
specified pixel_bgra8_unorm_srgb = 50
specified pixel_rgb10a2_unorm = 64
specified pixel_rg32_uint = 101
specified pixel_rg32_float = 103
specified pixel_rgba16_uint = 95
specified pixel_rgba16_float = 97
specified pixel_rgba32_uint = 107
specified pixel_rgba32_float = 109
specified pixel_depth16_unorm = 124
specified pixel_depth32_float = 126
specified pixel_stencil8 = 127
specified pixel_depth24_stencil8 = 129
specified pixel_depth32_float_stencil8 = 130

-- the bits of all channels of a texel
abbrev pub texel_bits : PixelFormat → ℕ
texel_bits pixel_invalid = 0
texel_bits pixel_a8_unorm = 8
texel_bits pixel_r8_unorm = 8
texel_bits pixel_r8_snorm = 8
texel_bits pixel_r8_uint = 8
texel_bits pixel_r16_uint = 16
texel_bits pixel_r16_float = 16
texel_bits pixel_rg8_unorm = 2 * 8
texel_bits pixel_rg8_snorm = 2 * 8
texel_bits pixel_r32_uint = 32
texel_bits pixel_r32_float = 32
texel_bits pixel_rg16_uint = 2 * 16
texel_bits pixel_rg16_float = 2 * 16
texel_bits pixel_rgba8_unorm = 4 * 8
texel_bits pixel_rgba8_unorm_srgb = 4 * 8
texel_bits pixel_rgba8_snorm = 4 * 8
texel_bits pixel_rgba8_uint = 4 * 8
texel_bits pixel_bgra8_unorm = 4 * 8
texel_bits pixel_bgra8_unorm_srgb = 4 * 8
texel_bits pixel_rgb10a2_unorm = 3 * 10 + 2
texel_bits pixel_rg32_uint = 2 * 32
texel_bits pixel_rg32_float = 2 * 32
texel_bits pixel_rgba16_uint = 4 * 16
texel_bits pixel_rgba16_float = 4 * 16
texel_bits pixel_rgba32_uint = 4 * 32
texel_bits pixel_rgba32_float = 4 * 32
texel_bits pixel_depth16_unorm = 16
texel_bits pixel_depth32_float = 32
texel_bits pixel_stencil8 = 8
texel_bits pixel_depth24_stencil8 = 24 + 8
texel_bits pixel_depth32_float_stencil8 = 32 + 8

abbrev pub is_a8 : PixelFormat → Bool
is_a8 pixel_a8_unorm = true
is_a8 _ = false

abbrev pub Agrees : PixelFormat → Type 0
Agrees f =
    ((metal_to_vk_pixel_format (pixel_format f) ≡ specified f) ↔ (is_a8 f ≡ false))
    × (8 * pixel_format_bpp (pixel_format f) ≡ texel_bits f)

agrees : (f : PixelFormat) → Agrees f
unfolding metal_to_vk_pixel_format pixel_format_bpp
agrees pixel_invalid = (((λ e. refl), λ e. refl), refl)
agrees pixel_a8_unorm = (((λ e. absurd (omega (arith, e))), λ e. absurd (ground arith)), refl)
agrees pixel_r8_unorm = (((λ e. refl), λ e. refl), refl)
agrees pixel_r8_snorm = (((λ e. refl), λ e. refl), refl)
agrees pixel_r8_uint = (((λ e. refl), λ e. refl), refl)
agrees pixel_r16_uint = (((λ e. refl), λ e. refl), refl)
agrees pixel_r16_float = (((λ e. refl), λ e. refl), refl)
agrees pixel_rg8_unorm = (((λ e. refl), λ e. refl), refl)
agrees pixel_rg8_snorm = (((λ e. refl), λ e. refl), refl)
agrees pixel_r32_uint = (((λ e. refl), λ e. refl), refl)
agrees pixel_r32_float = (((λ e. refl), λ e. refl), refl)
agrees pixel_rg16_uint = (((λ e. refl), λ e. refl), refl)
agrees pixel_rg16_float = (((λ e. refl), λ e. refl), refl)
agrees pixel_rgba8_unorm = (((λ e. refl), λ e. refl), refl)
agrees pixel_rgba8_unorm_srgb = (((λ e. refl), λ e. refl), refl)
agrees pixel_rgba8_snorm = (((λ e. refl), λ e. refl), refl)
agrees pixel_rgba8_uint = (((λ e. refl), λ e. refl), refl)
agrees pixel_bgra8_unorm = (((λ e. refl), λ e. refl), refl)
agrees pixel_bgra8_unorm_srgb = (((λ e. refl), λ e. refl), refl)
agrees pixel_rgb10a2_unorm = (((λ e. refl), λ e. refl), refl)
agrees pixel_rg32_uint = (((λ e. refl), λ e. refl), refl)
agrees pixel_rg32_float = (((λ e. refl), λ e. refl), refl)
agrees pixel_rgba16_uint = (((λ e. refl), λ e. refl), refl)
agrees pixel_rgba16_float = (((λ e. refl), λ e. refl), refl)
agrees pixel_rgba32_uint = (((λ e. refl), λ e. refl), refl)
agrees pixel_rgba32_float = (((λ e. refl), λ e. refl), refl)
agrees pixel_depth16_unorm = (((λ e. refl), λ e. refl), refl)
agrees pixel_depth32_float = (((λ e. refl), λ e. refl), refl)
agrees pixel_stencil8 = (((λ e. refl), λ e. refl), refl)
agrees pixel_depth24_stencil8 = (((λ e. refl), λ e. refl), refl)
agrees pixel_depth32_float_stencil8 = (((λ e. refl), λ e. refl), refl)

-- For each number, either it is no format of the enumeration but perhaps the invalid one, and
-- both lookups of pixel formats find nothing, or it is a format: the bytes per pixel are then
-- those of its channels, and the Vulkan format is the one of the same name in the Vulkan
-- specification, except for A8Unorm, which gets another number.
pub pixel_formats_agree :
    (fmt : ℕ)
    → ((metal_to_vk_pixel_format fmt ≡ 0)
        × (pixel_format_bpp fmt ≡ 0)
        × ((f : PixelFormat) → f ≢ pixel_invalid → pixel_format f ≢ fmt))
      ⊎ ((f : PixelFormat) × (pixel_format f ≡ fmt)
          × ((metal_to_vk_pixel_format fmt ≡ specified f) ↔ (is_a8 f ≡ false))
          × (8 * pixel_format_bpp fmt ≡ texel_bits f))
pixel_formats_agree fmt = elim (pixel_lookup_cases fmt) [
  | inl (nothing, size) ↦ inl (
    nothing,
    size,
    λ f valid same. pixel_lookup_complete f valid (ap metal_to_vk_pixel_format same ∙ nothing),
  )
  | inr (f, same, _, _) ↦
      let (number, size) = agrees f in
      inr (
        f,
        same,
        subst (λ n. (metal_to_vk_pixel_format n ≡ specified f) ↔ (is_a8 f ≡ false)) same number,
        subst (λ n. 8 * pixel_format_bpp n ≡ texel_bits f) same size,
      )
]
