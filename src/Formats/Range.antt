-- ===== src/Formats/Range.antt =====
-- The conversions to Vulkan's numbers: their range for each number from the wire, and the blend factors
-- against the numbers of the Vulkan specification.
use gravity_gpu_project.Prelude.{ltb, Bool, false, ◌↔◌, ℕ, ◌<◌, ◌≡◌, arith}
use gravity_gpu_project.Formats.State.{
  BlendFactor, blend_factor, blend_zero, blend_one, blend_src_color, blend_one_minus_src_color,
  blend_src_alpha, blend_one_minus_src_alpha, blend_dst_color, blend_one_minus_dst_color,
  blend_dst_alpha, blend_one_minus_dst_alpha, blend_src_alpha_saturated, blend_blend_color,
  blend_one_minus_blend_color, blend_blend_alpha, blend_one_minus_blend_alpha,
}
use gravity_gpu_project.Formats.Convert.{
  to_vk_primitive_topology, to_vk_index_type, to_vk_cull_mode, to_vk_front_face, to_vk_blend_factor,
  to_vk_load_op, to_vk_store_op, to_vk_address_mode, to_vk_filter, to_vk_mipmap_mode,
  to_vk_polygon_mode,
}

-- For every number, each of the eleven conversions that look at their argument gives a value of
-- the Vulkan enumeration that it converts to.
pub conversions_in_range :
    (n : ℕ)
    → (to_vk_primitive_topology n < 5)
      × (to_vk_index_type n < 2)
      × (to_vk_cull_mode n < 3)
      × (to_vk_front_face n < 2)
      × (to_vk_blend_factor n < 16)
      × (to_vk_load_op n < 3)
      × (to_vk_store_op n < 2)
      × (to_vk_address_mode n < 5)
      × (to_vk_filter n < 2)
      × (to_vk_mipmap_mode n < 2)
      × (to_vk_polygon_mode n < 2)
unfolding to_vk_primitive_topology to_vk_index_type to_vk_cull_mode to_vk_front_face
    to_vk_blend_factor to_vk_load_op to_vk_store_op to_vk_address_mode to_vk_filter
    to_vk_mipmap_mode to_vk_polygon_mode
conversions_in_range n = (
  ground arith,
  ground arith,
  ground arith,
  ground arith,
  ground arith,
  ground arith,
  ground arith,
  ground arith,
  ground arith,
  ground arith,
  ground arith,
)

-- The number of the factor in `VkBlendFactor` of the Vulkan specification, where the constant factors
-- are 10 to 13 and SRC_ALPHA_SATURATE is 14.
abbrev pub vulkan_blend_factor : BlendFactor → ℕ
vulkan_blend_factor blend_zero = 0
vulkan_blend_factor blend_one = 1
vulkan_blend_factor blend_src_color = 2
vulkan_blend_factor blend_one_minus_src_color = 3
vulkan_blend_factor blend_src_alpha = 6
vulkan_blend_factor blend_one_minus_src_alpha = 7
vulkan_blend_factor blend_dst_color = 4
vulkan_blend_factor blend_one_minus_dst_color = 5
vulkan_blend_factor blend_dst_alpha = 8
vulkan_blend_factor blend_one_minus_dst_alpha = 9
vulkan_blend_factor blend_src_alpha_saturated = 14
vulkan_blend_factor blend_blend_color = 10
vulkan_blend_factor blend_one_minus_blend_color = 11
vulkan_blend_factor blend_blend_alpha = 12
vulkan_blend_factor blend_one_minus_blend_alpha = 13

-- the factors that stand behind ONE_MINUS_DST_ALPHA there
abbrev pub is_late_factor : BlendFactor → Bool
is_late_factor f = ltb 9 (vulkan_blend_factor f)

-- `gravity_to_vk_blend_factor` gives a blend factor of the enumeration the number of that factor
-- in the Vulkan specification exactly when it is none of the constant factors and not the
-- saturated source alpha.
pub blend_factor_iff :
    (f : BlendFactor)
    → (to_vk_blend_factor (blend_factor f) ≡ vulkan_blend_factor f) ↔ (is_late_factor f ≡ false)
unfolding to_vk_blend_factor
blend_factor_iff blend_zero = ground arith
blend_factor_iff blend_one = ground arith
blend_factor_iff blend_src_color = ground arith
blend_factor_iff blend_one_minus_src_color = ground arith
blend_factor_iff blend_src_alpha = ground arith
blend_factor_iff blend_one_minus_src_alpha = ground arith
blend_factor_iff blend_dst_color = ground arith
blend_factor_iff blend_one_minus_dst_color = ground arith
blend_factor_iff blend_dst_alpha = ground arith
blend_factor_iff blend_one_minus_dst_alpha = ground arith
blend_factor_iff blend_src_alpha_saturated = ground arith
blend_factor_iff blend_blend_color = ground arith
blend_factor_iff blend_one_minus_blend_color = ground arith
blend_factor_iff blend_blend_alpha = ground arith
blend_factor_iff blend_one_minus_blend_alpha = ground arith
