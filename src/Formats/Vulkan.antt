-- ===== src/Formats/Vulkan.antt =====
-- `gravity_vk_format_t` of protocol/include/gravity_formats.h, some values of which have two names.
use gravity_gpu_project.Prelude.{ℕ}

pub data VkFormat : Type 0 where
  gvk_undefined gvk_r8_unorm gvk_r8_snorm gvk_r8_uint gvk_r16_uint : VkFormat
  gvk_r16_sfloat gvk_r8g8_unorm gvk_r8g8_snorm gvk_r32_uint gvk_r32_sfloat : VkFormat
  gvk_r16g16_uint gvk_r16g16_sfloat gvk_r8g8b8a8_unorm gvk_r8g8b8a8_srgb : VkFormat
  gvk_r8g8b8a8_snorm gvk_r8g8b8a8_uint gvk_b8g8r8a8_unorm gvk_b8g8r8a8_srgb : VkFormat
  gvk_a2b10g10r10_unorm_pack32 gvk_r32g32_uint gvk_r32g32_sfloat : VkFormat
  gvk_r16g16b16a16_uint gvk_r16g16b16a16_sfloat gvk_r32g32b32a32_uint : VkFormat
  gvk_r32g32b32a32_sfloat gvk_d16_unorm gvk_d32_sfloat gvk_s8_uint : VkFormat
  gvk_d24_unorm_s8_uint gvk_d32_sfloat_s8_uint gvk_a8_unorm gvk_r32_sfloat_v : VkFormat
  gvk_r32g32_sfloat_v gvk_r32g32b32_sfloat gvk_r32g32b32a32_sfloat_v : VkFormat
  gvk_r8g8b8a8_unorm_v gvk_r16g16_sint gvk_r16g16b16a16_sint : VkFormat
  gvk_r16g16_sfloat_v gvk_r16g16b16a16_sfloat_v gvk_r32_sint gvk_r32g32_sint : VkFormat
  gvk_r32g32b32_sint gvk_r32g32b32a32_sint gvk_r32_uint_v : VkFormat

abbrev pub vk_format : VkFormat → ℕ
vk_format gvk_undefined = 0
vk_format gvk_r8_unorm = 9
vk_format gvk_r8_snorm = 10
vk_format gvk_r8_uint = 13
vk_format gvk_r16_uint = 74
vk_format gvk_r16_sfloat = 76
vk_format gvk_r8g8_unorm = 16
vk_format gvk_r8g8_snorm = 17
vk_format gvk_r32_uint = 98
vk_format gvk_r32_sfloat = 100
vk_format gvk_r16g16_uint = 81
vk_format gvk_r16g16_sfloat = 83
vk_format gvk_r8g8b8a8_unorm = 37
vk_format gvk_r8g8b8a8_srgb = 43
vk_format gvk_r8g8b8a8_snorm = 38
vk_format gvk_r8g8b8a8_uint = 41
vk_format gvk_b8g8r8a8_unorm = 44
vk_format gvk_b8g8r8a8_srgb = 50
vk_format gvk_a2b10g10r10_unorm_pack32 = 64
vk_format gvk_r32g32_uint = 101
vk_format gvk_r32g32_sfloat = 103
vk_format gvk_r16g16b16a16_uint = 95
vk_format gvk_r16g16b16a16_sfloat = 97
vk_format gvk_r32g32b32a32_uint = 107
vk_format gvk_r32g32b32a32_sfloat = 109
vk_format gvk_d16_unorm = 124
vk_format gvk_d32_sfloat = 126
vk_format gvk_s8_uint = 127
vk_format gvk_d24_unorm_s8_uint = 129
vk_format gvk_d32_sfloat_s8_uint = 130
vk_format gvk_a8_unorm = 1000470000
vk_format gvk_r32_sfloat_v = 100
vk_format gvk_r32g32_sfloat_v = 103
vk_format gvk_r32g32b32_sfloat = 106
vk_format gvk_r32g32b32a32_sfloat_v = 109
vk_format gvk_r8g8b8a8_unorm_v = 37
vk_format gvk_r16g16_sint = 82
vk_format gvk_r16g16b16a16_sint = 96
vk_format gvk_r16g16_sfloat_v = 83
vk_format gvk_r16g16b16a16_sfloat_v = 97
vk_format gvk_r32_sint = 99
vk_format gvk_r32g32_sint = 102
vk_format gvk_r32g32b32_sint = 105
vk_format gvk_r32g32b32a32_sint = 108
vk_format gvk_r32_uint_v = 98
