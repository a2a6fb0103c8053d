-- ===== src/Formats/Convert.antt =====
-- The conversions of enumerations to Vulkan's numbers in protocol/src/gravity_formats.c. A `default`
-- is the last `else`.
use gravity_gpu_project.Prelude.{ℕ, ◌==◌, if◌then◌else◌}
use gravity_gpu_project.Formats.State.{
  primitive_point, primitive_type, primitive_line, primitive_line_strip, primitive_triangle,
  primitive_triangle_strip, index_uint16, index_type, index_uint32, cull_none, cull_mode,
  cull_front, cull_back, winding_cw, winding, winding_ccw, blend_zero, blend_factor, blend_one,
  blend_src_color, blend_one_minus_src_color, blend_dst_color, blend_one_minus_dst_color,
  blend_src_alpha, blend_one_minus_src_alpha, blend_dst_alpha, blend_one_minus_dst_alpha,
  blend_blend_color, blend_one_minus_blend_color, blend_blend_alpha, blend_one_minus_blend_alpha,
  blend_src_alpha_saturated, load_load, load_action, load_clear, load_dont_care, store_store,
  store_action, store_dont_care, address_repeat, sampler_address_mode, address_mirror_repeat,
  address_clamp_to_edge, address_clamp_to_border, address_mirror_clamp, address_clamp_to_zero,
  filter_nearest, sampler_min_mag_filter, filter_linear, mip_not_mipmapped, sampler_mip_filter,
  mip_nearest, mip_linear, fill_fill, triangle_fill_mode, fill_lines,
}

unfoldable pub to_vk_primitive_topology : ℕ → ℕ
to_vk_primitive_topology prim =
    if prim == primitive_type primitive_point
    then 0
    else if prim == primitive_type primitive_line
    then 1
    else if prim == primitive_type primitive_line_strip
    then 2
    else if prim == primitive_type primitive_triangle
    then 3
    else if prim == primitive_type primitive_triangle_strip
    then 4
    else 3

unfoldable pub to_vk_index_type : ℕ → ℕ
to_vk_index_type idx =
    if idx == index_type index_uint16 then 0 else if idx == index_type index_uint32 then 1 else 1

unfoldable pub to_vk_cull_mode : ℕ → ℕ
to_vk_cull_mode mode =
    if mode == cull_mode cull_none
    then 0
    else if mode == cull_mode cull_front
    then 1
    else if mode == cull_mode cull_back
    then 2
    else 0

unfoldable pub to_vk_front_face : ℕ → ℕ
to_vk_front_face face =
    if face == winding winding_cw then 0 else if face == winding winding_ccw then 1 else 0

unfoldable pub to_vk_compare_op : ℕ → ℕ
to_vk_compare_op func = func

unfoldable pub to_vk_blend_factor : ℕ → ℕ
to_vk_blend_factor factor =
    if factor == blend_factor blend_zero
    then 0
    else if factor == blend_factor blend_one
    then 1
    else if factor == blend_factor blend_src_color
    then 2
    else if factor == blend_factor blend_one_minus_src_color
    then 3
    else if factor == blend_factor blend_dst_color
    then 4
    else if factor == blend_factor blend_one_minus_dst_color
    then 5
    else if factor == blend_factor blend_src_alpha
    then 6
    else if factor == blend_factor blend_one_minus_src_alpha
    then 7
    else if factor == blend_factor blend_dst_alpha
    then 8
    else if factor == blend_factor blend_one_minus_dst_alpha
    then 9
    else if factor == blend_factor blend_blend_color
    then 12
    else if factor == blend_factor blend_one_minus_blend_color
    then 13
    else if factor == blend_factor blend_blend_alpha
    then 14
    else if factor == blend_factor blend_one_minus_blend_alpha
    then 15
    else if factor == blend_factor blend_src_alpha_saturated
    then 10
    else 0

unfoldable pub to_vk_blend_op : ℕ → ℕ
to_vk_blend_op op = op

unfoldable pub to_vk_stencil_op : ℕ → ℕ
to_vk_stencil_op op = op

unfoldable pub to_vk_load_op : ℕ → ℕ
to_vk_load_op action =
    if action == load_action load_load
    then 0
    else if action == load_action load_clear
    then 1
    else if action == load_action load_dont_care
    then 2
    else 2

unfoldable pub to_vk_store_op : ℕ → ℕ
to_vk_store_op action =
    if action == store_action store_store
    then 0
    else if action == store_action store_dont_care
    then 1
    else 0

unfoldable pub to_vk_address_mode : ℕ → ℕ
to_vk_address_mode mode =
    if mode == sampler_address_mode address_repeat
    then 0
    else if mode == sampler_address_mode address_mirror_repeat
    then 1
    else if mode == sampler_address_mode address_clamp_to_edge
    then 2
    else if mode == sampler_address_mode address_clamp_to_border
    then 3
    else if mode == sampler_address_mode address_mirror_clamp
    then 4
    else if mode == sampler_address_mode address_clamp_to_zero
    then 3
    else 2

unfoldable pub to_vk_filter : ℕ → ℕ
to_vk_filter filter =
    if filter == sampler_min_mag_filter filter_nearest
    then 0
    else if filter == sampler_min_mag_filter filter_linear
    then 1
    else 0

unfoldable pub to_vk_mipmap_mode : ℕ → ℕ
to_vk_mipmap_mode filter =
    if filter == sampler_mip_filter mip_not_mipmapped
    then 0
    else if filter == sampler_mip_filter mip_nearest
    then 0
    else if filter == sampler_mip_filter mip_linear
    then 1
    else 0

unfoldable pub to_vk_polygon_mode : ℕ → ℕ
to_vk_polygon_mode mode =
    if mode == triangle_fill_mode fill_fill
    then 0
    else if mode == triangle_fill_mode fill_lines
    then 1
    else 0
