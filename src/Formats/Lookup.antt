-- ===== src/Formats/Lookup.antt =====
-- The pixel format table: which formats it knows, and that a Vulkan format stands for one Metal one.
use gravity_gpu_project.Prelude.{
  ==_iff, ℕ_discrete, ℕ, ◌≡◌, ◌≢◌, refl, sym, ◌∙◌, ap, Bool, true, false, ◌&&◌, List, [], ◌∷◌, ◌⊎◌,
  inl, inr, arith, ◌==◌, leb, not, if◌then◌else◌,
}
use mathlib.Core.Bool.{beq, false≢true}
use gravity_gpu_project.Formats.Metal.{
  PixelFormat, pixel_format, pixel_invalid, pixel_a8_unorm, pixel_r8_unorm, pixel_r8_snorm,
  pixel_r8_uint, pixel_r16_uint, pixel_r16_float, pixel_rg8_unorm, pixel_rg8_snorm, pixel_r32_uint,
  pixel_r32_float, pixel_rg16_uint, pixel_rg16_float, pixel_rgba8_unorm, pixel_rgba8_unorm_srgb,
  pixel_rgba8_snorm, pixel_rgba8_uint, pixel_bgra8_unorm, pixel_bgra8_unorm_srgb,
  pixel_rgb10a2_unorm, pixel_rg32_uint, pixel_rg32_float, pixel_rgba16_uint, pixel_rgba16_float,
  pixel_rgba32_uint, pixel_rgba32_float, pixel_depth16_unorm, pixel_depth32_float, pixel_stencil8,
  pixel_depth24_stencil8, pixel_depth32_float_stencil8,
}
use gravity_gpu_project.Formats.Pixel.{
  FormatEntry, pixel_format_table, find_vk_format, find_bpp, metal_to_vk_pixel_format,
  pixel_format_bpp, pixel_format_is_depth_stencil,
}
use gravity_gpu_project.Formats.Vulkan.{vk_format, gvk_d16_unorm, gvk_d32_sfloat_s8_uint}

-- the Metal format of the first row with a given Vulkan format
find_metal : List FormatEntry → ℕ → ℕ
find_metal [] v = 0
find_metal (e ∷ es) v =
    let rest = find_metal es v in
    if vk_format e.vk_format_of == v then pixel_format e.metal_format else rest

-- Vulkan's depth and stencil formats are the numbers from D16_UNORM to D32_SFLOAT_S8_UINT.
abbrev pub vk_is_depth_stencil : ℕ → Bool
vk_is_depth_stencil v = leb (vk_format gvk_d16_unorm) v && leb v (vk_format gvk_d32_sfloat_s8_uint)

-- what is checked of every row
abbrev good_row : FormatEntry → Bool
good_row e =
    let v = vk_format e.vk_format_of in
    let m = pixel_format e.metal_format in
    not (v == 0)
    && (not (e.bytes_per_pixel == 0)
        && ((find_metal pixel_format_table v == m)
            && beq (pixel_format_is_depth_stencil m) (vk_is_depth_stencil v)))

abbrev all_rows : (FormatEntry → Bool) → List FormatEntry → Bool
all_rows p [] = true
all_rows p (e ∷ es) = p e && all_rows p es

-- The first row of a format, or that there is none.
abbrev RowOf : (FormatEntry → Bool) → List FormatEntry → ℕ → Type 0
RowOf p es fmt =
    (e : FormatEntry) × (pixel_format e.metal_format ≡ fmt)
    × (p e ≡ true)
    × (find_vk_format es fmt ≡ vk_format e.vk_format_of)
    × (find_bpp es fmt ≡ e.bytes_per_pixel)

abbrev NoRow : List FormatEntry → ℕ → Type 0
NoRow es fmt = (find_vk_format es fmt ≡ 0) × (find_bpp es fmt ≡ 0)

head_true : (a b : Bool) → (a && b) ≡ true → (a ≡ true) × (b ≡ true)
head_true a b h = ground arith

row_here :
    (e : FormatEntry) (es : List FormatEntry) (fmt : ℕ)
    → pixel_format e.metal_format ≡ fmt
    → (find_vk_format (e ∷ es) fmt ≡ vk_format e.vk_format_of)
      × (find_bpp (e ∷ es) fmt ≡ e.bytes_per_pixel)
row_here e es fmt same =
    let (_, test) = ==_iff (pixel_format e.metal_format) fmt in rw (test same) (refl, refl)

row_later :
    (e : FormatEntry) (es : List FormatEntry) (fmt : ℕ)
    → pixel_format e.metal_format ≢ fmt
    → (find_vk_format (e ∷ es) fmt ≡ find_vk_format es fmt)
      × (find_bpp (e ∷ es) fmt ≡ find_bpp es fmt)
row_later e es fmt other =
    let test : (pixel_format e.metal_format == fmt) ≡ false = ground arith in rw test (refl, refl)

find_row :
    (p : FormatEntry → Bool) (es : List FormatEntry) (fmt : ℕ)
    → all_rows p es ≡ true
    → NoRow es fmt ⊎ RowOf p es fmt
find_row p [] fmt g = inl (refl, refl)
find_row p (e ∷ es) fmt g =
    let (good, rest) = head_true (p e) (all_rows p es) g in
    elim (ℕ_discrete (pixel_format e.metal_format) fmt) [
      | yes same ↦ let (v, b) = row_here e es fmt same in inr (e, same, good, v, b)
      | no other ↦
          let (v, b) = row_later e es fmt other in
          elim (find_row p es fmt rest) [
            | inl (v', b') ↦ inl (v ∙ v', b ∙ b')
            | inr (r, same, good, v', b') ↦ inr (r, same, good, v ∙ v', b ∙ b')
          ]
    ]

table_good : all_rows good_row pixel_format_table ≡ true
unfolding find_metal pixel_format_is_depth_stencil
table_good = refl

conjuncts :
    (a b c d : Bool)
    → (not a && (not b && (c && d))) ≡ true
    → (a ≡ false) × (b ≡ false) × (c ≡ true) × (d ≡ true)
conjuncts false false true true h = (refl, refl, refl, refl)
conjuncts false false true false h = absurd (false≢true h)
conjuncts false false false d h = absurd (false≢true h)
conjuncts false true c d h = absurd (false≢true h)
conjuncts true b c d h = absurd (false≢true h)

beq-eq : (a b : Bool) → beq a b ≡ true → a ≡ b
beq-eq a b h = ground arith

not_zero : (n : ℕ) → (n == 0) ≡ false → n ≢ 0
not_zero n h = ground arith

good_row_lem :
    (e : FormatEntry)
    → good_row e ≡ true
    → (vk_format e.vk_format_of ≢ 0)
      × (e.bytes_per_pixel ≢ 0)
      × (find_metal pixel_format_table (vk_format e.vk_format_of) ≡ pixel_format e.metal_format)
      × (pixel_format_is_depth_stencil (pixel_format e.metal_format)
          ≡ vk_is_depth_stencil (vk_format e.vk_format_of))
good_row_lem e good =
    let v = vk_format e.vk_format_of in
    let m = pixel_format e.metal_format in
    let (a, b, c, d) =
      conjuncts (v == 0) (e.bytes_per_pixel == 0) (find_metal pixel_format_table v == m)
        (beq (pixel_format_is_depth_stencil m) (vk_is_depth_stencil v)) good in
    (
      not_zero v a,
      not_zero e.bytes_per_pixel b,
      (==_iff (find_metal pixel_format_table v) m).0 c,
      beq-eq (pixel_format_is_depth_stencil m) (vk_is_depth_stencil v) d,
    )

-- what a number that stands for a known format is
known_row : (fmt : ℕ) → metal_to_vk_pixel_format fmt ≢ 0 → RowOf good_row pixel_format_table fmt
unfolding metal_to_vk_pixel_format
known_row fmt known = elim (find_row good_row pixel_format_table fmt table_good) [
  | inl missing ↦ absurd (known missing.0)
  | inr row ↦ row
]

-- For each number, either both pixel format lookups find nothing, or it is one of the
-- enumeration's formats and has a Vulkan format and a size that are not 0.
pub pixel_lookup_cases :
    (fmt : ℕ)
    → ((metal_to_vk_pixel_format fmt ≡ 0) × (pixel_format_bpp fmt ≡ 0))
      ⊎ ((f : PixelFormat) × (pixel_format f ≡ fmt)
          × (metal_to_vk_pixel_format fmt ≢ 0)
          × (pixel_format_bpp fmt ≢ 0))
unfolding metal_to_vk_pixel_format pixel_format_bpp
pixel_lookup_cases fmt = elim (find_row good_row pixel_format_table fmt table_good) [
  | inl missing ↦ inl missing
  | inr (e, same, good, v, b) ↦
      let (vk, bytes, _, _) = good_row_lem e good in
      inr (e.metal_format, same, (λ z. vk (sym v ∙ z)), (λ z. bytes (sym b ∙ z)))
]

-- Every pixel format of the enumeration but the invalid one has a Vulkan format.
pub pixel_lookup_complete :
    (f : PixelFormat) → f ≢ pixel_invalid → metal_to_vk_pixel_format (pixel_format f) ≢ 0
unfolding metal_to_vk_pixel_format
pixel_lookup_complete pixel_invalid ne z = ne refl
pixel_lookup_complete pixel_a8_unorm ne z = omega arith
pixel_lookup_complete pixel_r8_unorm ne z = omega arith
pixel_lookup_complete pixel_r8_snorm ne z = omega arith
pixel_lookup_complete pixel_r8_uint ne z = omega arith
pixel_lookup_complete pixel_r16_uint ne z = omega arith
pixel_lookup_complete pixel_r16_float ne z = omega arith
pixel_lookup_complete pixel_rg8_unorm ne z = omega arith
pixel_lookup_complete pixel_rg8_snorm ne z = omega arith
pixel_lookup_complete pixel_r32_uint ne z = omega arith
pixel_lookup_complete pixel_r32_float ne z = omega arith
pixel_lookup_complete pixel_rg16_uint ne z = omega arith
pixel_lookup_complete pixel_rg16_float ne z = omega arith
pixel_lookup_complete pixel_rgba8_unorm ne z = omega arith
pixel_lookup_complete pixel_rgba8_unorm_srgb ne z = omega arith
pixel_lookup_complete pixel_rgba8_snorm ne z = omega arith
pixel_lookup_complete pixel_rgba8_uint ne z = omega arith
pixel_lookup_complete pixel_bgra8_unorm ne z = omega arith
pixel_lookup_complete pixel_bgra8_unorm_srgb ne z = omega arith
pixel_lookup_complete pixel_rgb10a2_unorm ne z = omega arith
pixel_lookup_complete pixel_rg32_uint ne z = omega arith
pixel_lookup_complete pixel_rg32_float ne z = omega arith
pixel_lookup_complete pixel_rgba16_uint ne z = omega arith
pixel_lookup_complete pixel_rgba16_float ne z = omega arith
pixel_lookup_complete pixel_rgba32_uint ne z = omega arith
pixel_lookup_complete pixel_rgba32_float ne z = omega arith
pixel_lookup_complete pixel_depth16_unorm ne z = omega arith
pixel_lookup_complete pixel_depth32_float ne z = omega arith
pixel_lookup_complete pixel_stencil8 ne z = omega arith
pixel_lookup_complete pixel_depth24_stencil8 ne z = omega arith
pixel_lookup_complete pixel_depth32_float_stencil8 ne z = omega arith

-- Two numbers with the same Vulkan format, other than the undefined one, are the same pixel
-- format.
pub vk_format_unique :
    (a b : ℕ)
    → metal_to_vk_pixel_format a ≢ 0
    → metal_to_vk_pixel_format a ≡ metal_to_vk_pixel_format b
    → a ≡ b
unfolding metal_to_vk_pixel_format
vk_format_unique a b known e =
    let (r, at, good, v, _) = known_row a known in
    let (r', at', good', v', _) = known_row b (λ z. known (e ∙ z)) in
    let (_, _, back, _) = good_row_lem r good in
    let (_, _, back', _) = good_row_lem r' good' in
    sym at ∙ sym back ∙ ap (find_metal pixel_format_table) (sym v ∙ e ∙ v') ∙ back' ∙ at'

-- For a number that has a Vulkan format, `gravity_pixel_format_is_depth_stencil` is true just
-- when that Vulkan format is a depth or stencil one.
pub depth_stencil_agrees :
    (fmt : ℕ)
    → metal_to_vk_pixel_format fmt ≢ 0
    → pixel_format_is_depth_stencil fmt ≡ vk_is_depth_stencil (metal_to_vk_pixel_format fmt)
unfolding metal_to_vk_pixel_format
depth_stencil_agrees fmt known =
    let (r, at, good, v, _) = known_row fmt known in
    let (_, _, _, same) = good_row_lem r good in
    ap pixel_format_is_depth_stencil (sym at) ∙ same ∙ ap vk_is_depth_stencil (sym v)
