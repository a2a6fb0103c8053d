-- ===== src/Formats/State.antt =====
-- The Metal-side enumerations of pipeline and pass state in protocol/include/gravity_protocol.h: the
-- constructors, and the numbers that stand for them on the wire.
use gravity_gpu_project.Prelude.{ℕ}

pub data LoadAction : Type 0 where
  load_dont_care load_load load_clear : LoadAction

abbrev pub load_action : LoadAction → ℕ
load_action load_dont_care = 0
load_action load_load = 1
load_action load_clear = 2

pub data StoreAction : Type 0 where
  store_dont_care store_store store_multisample_resolve : StoreAction
  store_store_and_multisample_resolve store_unknown : StoreAction
  store_custom_sample_depth_store : StoreAction

abbrev pub store_action : StoreAction → ℕ
store_action store_dont_care = 0
store_action store_store = 1
store_action store_multisample_resolve = 2
store_action store_store_and_multisample_resolve = 3
store_action store_unknown = 4
store_action store_custom_sample_depth_store = 5

pub data PrimitiveType : Type 0 where
  primitive_point primitive_line primitive_line_strip primitive_triangle : PrimitiveType
  primitive_triangle_strip : PrimitiveType

abbrev pub primitive_type : PrimitiveType → ℕ
primitive_type primitive_point = 0
primitive_type primitive_line = 1
primitive_type primitive_line_strip = 2
primitive_type primitive_triangle = 3
primitive_type primitive_triangle_strip = 4

pub data IndexType : Type 0 where
  index_uint16 index_uint32 : IndexType

abbrev pub index_type : IndexType → ℕ
index_type index_uint16 = 0
index_type index_uint32 = 1

pub data CullMode : Type 0 where
  cull_none cull_front cull_back : CullMode

abbrev pub cull_mode : CullMode → ℕ
cull_mode cull_none = 0
cull_mode cull_front = 1
cull_mode cull_back = 2

pub data Winding : Type 0 where
  winding_cw winding_ccw : Winding

abbrev pub winding : Winding → ℕ
winding winding_cw = 0
winding winding_ccw = 1

pub data TriangleFillMode : Type 0 where
  fill_fill fill_lines : TriangleFillMode

abbrev pub triangle_fill_mode : TriangleFillMode → ℕ
triangle_fill_mode fill_fill = 0
triangle_fill_mode fill_lines = 1

pub data CompareFunction : Type 0 where
  compare_never compare_less compare_equal compare_less_equal compare_greater : CompareFunction
  compare_not_equal compare_greater_equal compare_always : CompareFunction

abbrev pub compare_function : CompareFunction → ℕ
compare_function compare_never = 0
compare_function compare_less = 1
compare_function compare_equal = 2
compare_function compare_less_equal = 3
compare_function compare_greater = 4
compare_function compare_not_equal = 5
compare_function compare_greater_equal = 6
compare_function compare_always = 7

pub data SamplerAddressMode : Type 0 where
  address_clamp_to_edge address_mirror_clamp address_repeat : SamplerAddressMode
  address_mirror_repeat address_clamp_to_zero address_clamp_to_border : SamplerAddressMode

abbrev pub sampler_address_mode : SamplerAddressMode → ℕ
sampler_address_mode address_clamp_to_edge = 0
sampler_address_mode address_mirror_clamp = 1
sampler_address_mode address_repeat = 2
sampler_address_mode address_mirror_repeat = 3
sampler_address_mode address_clamp_to_zero = 4
sampler_address_mode address_clamp_to_border = 5

pub data SamplerMinMagFilter : Type 0 where
  filter_nearest filter_linear : SamplerMinMagFilter

abbrev pub sampler_min_mag_filter : SamplerMinMagFilter → ℕ
sampler_min_mag_filter filter_nearest = 0
sampler_min_mag_filter filter_linear = 1

pub data SamplerMipFilter : Type 0 where
  mip_not_mipmapped mip_nearest mip_linear : SamplerMipFilter

abbrev pub sampler_mip_filter : SamplerMipFilter → ℕ
sampler_mip_filter mip_not_mipmapped = 0
sampler_mip_filter mip_nearest = 1
sampler_mip_filter mip_linear = 2

pub data BlendFactor : Type 0 where
  blend_zero blend_one blend_src_color blend_one_minus_src_color : BlendFactor
  blend_src_alpha blend_one_minus_src_alpha blend_dst_color : BlendFactor
  blend_one_minus_dst_color blend_dst_alpha blend_one_minus_dst_alpha : BlendFactor
  blend_src_alpha_saturated blend_blend_color blend_one_minus_blend_color : BlendFactor
  blend_blend_alpha blend_one_minus_blend_alpha : BlendFactor

abbrev pub blend_factor : BlendFactor → ℕ
blend_factor blend_zero = 0
blend_factor blend_one = 1
blend_factor blend_src_color = 2
blend_factor blend_one_minus_src_color = 3
blend_factor blend_src_alpha = 4
blend_factor blend_one_minus_src_alpha = 5
blend_factor blend_dst_color = 6
blend_factor blend_one_minus_dst_color = 7
blend_factor blend_dst_alpha = 8
blend_factor blend_one_minus_dst_alpha = 9
blend_factor blend_src_alpha_saturated = 10
blend_factor blend_blend_color = 11
blend_factor blend_one_minus_blend_color = 12
blend_factor blend_blend_alpha = 13
blend_factor blend_one_minus_blend_alpha = 14

pub data BlendOperation : Type 0 where
  blend_op_add blend_op_subtract blend_op_reverse_subtract blend_op_min : BlendOperation
  blend_op_max : BlendOperation

abbrev pub blend_operation : BlendOperation → ℕ
blend_operation blend_op_add = 0
blend_operation blend_op_subtract = 1
blend_operation blend_op_reverse_subtract = 2
blend_operation blend_op_min = 3
blend_operation blend_op_max = 4

pub data StencilOperation : Type 0 where
  stencil_op_keep stencil_op_zero stencil_op_replace : StencilOperation
  stencil_op_increment_clamp stencil_op_decrement_clamp stencil_op_invert : StencilOperation
  stencil_op_increment_wrap stencil_op_decrement_wrap : StencilOperation

abbrev pub stencil_operation : StencilOperation → ℕ
stencil_operation stencil_op_keep = 0
stencil_operation stencil_op_zero = 1
stencil_operation stencil_op_replace = 2
stencil_operation stencil_op_increment_clamp = 3
stencil_operation stencil_op_decrement_clamp = 4
stencil_operation stencil_op_invert = 5
stencil_operation stencil_op_increment_wrap = 6
stencil_operation stencil_op_decrement_wrap = 7
