-- ===== src/Formats/Vertex.antt =====
-- The vertex format table of protocol/src/gravity_formats.c and its lookups.
use gravity_gpu_project.Prelude.{ℕ, List, [], ◌∷◌, ◌==◌, if◌then◌else◌}
use gravity_gpu_project.Formats.Metal.{
  VertexFormat, vertex_format, vertex_float, vertex_float2, vertex_float3, vertex_float4,
  vertex_uchar4, vertex_uchar4_norm, vertex_short2, vertex_short4, vertex_half2, vertex_half4,
  vertex_int, vertex_int2, vertex_int3, vertex_int4, vertex_uint,
}
use gravity_gpu_project.Formats.Vulkan.{
  VkFormat, vk_format, gvk_r32_sfloat_v, gvk_r32g32_sfloat_v, gvk_r32g32b32_sfloat,
  gvk_r32g32b32a32_sfloat_v, gvk_r8g8b8a8_uint, gvk_r8g8b8a8_unorm_v, gvk_r16g16_sint,
  gvk_r16g16b16a16_sint, gvk_r16g16_sfloat_v, gvk_r16g16b16a16_sfloat_v, gvk_r32_sint,
  gvk_r32g32_sint, gvk_r32g32b32_sint, gvk_r32g32b32a32_sint, gvk_r32_uint_v, gvk_undefined,
}

-- `vertex_format_entry_t`
pub record VertexEntry : Type 0 where
  pub metal_fmt : VertexFormat
  pub vk_fmt : VkFormat
  pub size_bytes : ℕ

abbrev row : VertexFormat → VkFormat → ℕ → VertexEntry
row m v n = record { metal_fmt = m; vk_fmt = v; size_bytes = n }

abbrev pub vertex_format_table : List VertexEntry
vertex_format_table =
    row vertex_float gvk_r32_sfloat_v 4
    ∷ row vertex_float2 gvk_r32g32_sfloat_v 8
    ∷ row vertex_float3 gvk_r32g32b32_sfloat 12
    ∷ row vertex_float4 gvk_r32g32b32a32_sfloat_v 16
    ∷ row vertex_uchar4 gvk_r8g8b8a8_uint 4
    ∷ row vertex_uchar4_norm gvk_r8g8b8a8_unorm_v 4
    ∷ row vertex_short2 gvk_r16g16_sint 4
    ∷ row vertex_short4 gvk_r16g16b16a16_sint 8
    ∷ row vertex_half2 gvk_r16g16_sfloat_v 4
    ∷ row vertex_half4 gvk_r16g16b16a16_sfloat_v 8
    ∷ row vertex_int gvk_r32_sint 4
    ∷ row vertex_int2 gvk_r32g32_sint 8
    ∷ row vertex_int3 gvk_r32g32b32_sint 12
    ∷ row vertex_int4 gvk_r32g32b32a32_sint 16
    ∷ row vertex_uint gvk_r32_uint_v 4
    ∷ []

abbrev pub find_vertex_vk : List VertexEntry → ℕ → ℕ
find_vertex_vk [] fmt = vk_format gvk_undefined
find_vertex_vk (e ∷ es) fmt =
    let rest = find_vertex_vk es fmt in
    if vertex_format e.metal_fmt == fmt then vk_format e.vk_fmt else rest

abbrev pub find_vertex_size : List VertexEntry → ℕ → ℕ
find_vertex_size [] fmt = 0
find_vertex_size (e ∷ es) fmt =
    let rest = find_vertex_size es fmt in
    if vertex_format e.metal_fmt == fmt then e.size_bytes else rest

unfoldable pub metal_to_vk_vertex_format : ℕ → ℕ
metal_to_vk_vertex_format fmt = find_vertex_vk vertex_format_table fmt

unfoldable pub vertex_format_size : ℕ → ℕ
vertex_format_size fmt = find_vertex_size vertex_format_table fmt
