-- ===== src/Payload/Render.antt =====
-- The payloads of protocol/include/gravity_protocol.h: the commands inside a render pass. The
-- structs are packed, a float is its 32 bits, and a reserved field is not read.
use gravity_gpu_project.Prelude.{ℕ, ◌+◌, List, load32}
use gravity_gpu_project.Payload.Load.{load_array}
use gravity_gpu_project.Protocol.Header.{CmdHeader, load_header}

-- `gravity_viewport_t`
pub record Viewport : Type 0 where
  pub x : ℕ
  pub y : ℕ
  pub width : ℕ
  pub height : ℕ
  pub znear : ℕ
  pub zfar : ℕ

unfoldable pub load_viewport : List ℕ → ℕ → Viewport
load_viewport buf i = record {
  x = load32 buf i;
  y = load32 buf (i + 4);
  width = load32 buf (i + 8);
  height = load32 buf (i + 12);
  znear = load32 buf (i + 16);
  zfar = load32 buf (i + 20);
}

-- `gravity_scissor_rect_t`
pub record ScissorRect : Type 0 where
  pub x : ℕ
  pub y : ℕ
  pub width : ℕ
  pub height : ℕ

unfoldable pub load_scissor_rect : List ℕ → ℕ → ScissorRect
load_scissor_rect buf i = record {
  x = load32 buf i;
  y = load32 buf (i + 4);
  width = load32 buf (i + 8);
  height = load32 buf (i + 12);
}

-- `gravity_cmd_render_set_pipeline_t`
pub record CmdRenderSetPipeline : Type 0 where
  pub hdr : CmdHeader
  pub cmdbuf : ℕ
  pub pipeline : ℕ

unfoldable pub load_render_set_pipeline : List ℕ → CmdRenderSetPipeline
load_render_set_pipeline buf = record {
  hdr = load_header buf;
  cmdbuf = load32 buf 16;
  pipeline = load32 buf 20;
}

abbrev pub sizeof_render_set_pipeline : ℕ
sizeof_render_set_pipeline = 24

-- `gravity_cmd_render_set_vertex_buffer_t`
pub record CmdRenderSetVertexBuffer : Type 0 where
  pub hdr : CmdHeader
  pub cmdbuf : ℕ
  pub buffer : ℕ
  pub offset : ℕ
  pub index : ℕ

unfoldable pub load_render_set_vertex_buffer : List ℕ → CmdRenderSetVertexBuffer
load_render_set_vertex_buffer buf = record {
  hdr = load_header buf;
  cmdbuf = load32 buf 16;
  buffer = load32 buf 20;
  offset = load32 buf 24;
  index = load32 buf 28;
}

abbrev pub sizeof_render_set_vertex_buffer : ℕ
sizeof_render_set_vertex_buffer = 32

-- `gravity_cmd_render_set_fragment_buffer_t`
pub record CmdRenderSetFragmentBuffer : Type 0 where
  pub hdr : CmdHeader
  pub cmdbuf : ℕ
  pub buffer : ℕ
  pub offset : ℕ
  pub index : ℕ

unfoldable pub load_render_set_fragment_buffer : List ℕ → CmdRenderSetFragmentBuffer
load_render_set_fragment_buffer buf = record {
  hdr = load_header buf;
  cmdbuf = load32 buf 16;
  buffer = load32 buf 20;
  offset = load32 buf 24;
  index = load32 buf 28;
}

abbrev pub sizeof_render_set_fragment_buffer : ℕ
sizeof_render_set_fragment_buffer = 32

-- `gravity_cmd_render_set_fragment_texture_t`
pub record CmdRenderSetFragmentTexture : Type 0 where
  pub hdr : CmdHeader
  pub cmdbuf : ℕ
  pub texture : ℕ
  pub index : ℕ

unfoldable pub load_render_set_fragment_texture : List ℕ → CmdRenderSetFragmentTexture
load_render_set_fragment_texture buf = record {
  hdr = load_header buf;
  cmdbuf = load32 buf 16;
  texture = load32 buf 20;
  index = load32 buf 24;
}

abbrev pub sizeof_render_set_fragment_texture : ℕ
sizeof_render_set_fragment_texture = 28

-- `gravity_cmd_render_set_fragment_sampler_t`
pub record CmdRenderSetFragmentSampler : Type 0 where
  pub hdr : CmdHeader
  pub cmdbuf : ℕ
  pub sampler : ℕ
  pub index : ℕ

unfoldable pub load_render_set_fragment_sampler : List ℕ → CmdRenderSetFragmentSampler
load_render_set_fragment_sampler buf = record {
  hdr = load_header buf;
  cmdbuf = load32 buf 16;
  sampler = load32 buf 20;
  index = load32 buf 24;
}

abbrev pub sizeof_render_set_fragment_sampler : ℕ
sizeof_render_set_fragment_sampler = 28

-- `gravity_cmd_render_set_viewport_t`
pub record CmdRenderSetViewport : Type 0 where
  pub hdr : CmdHeader
  pub cmdbuf : ℕ
  pub viewport : Viewport

unfoldable pub load_render_set_viewport : List ℕ → CmdRenderSetViewport
load_render_set_viewport buf = record {
  hdr = load_header buf;
  cmdbuf = load32 buf 16;
  viewport = load_viewport buf 20;
}

abbrev pub sizeof_render_set_viewport : ℕ
sizeof_render_set_viewport = 44

-- `gravity_cmd_render_set_scissor_t`
pub record CmdRenderSetScissor : Type 0 where
  pub hdr : CmdHeader
  pub cmdbuf : ℕ
  pub rect : ScissorRect

unfoldable pub load_render_set_scissor : List ℕ → CmdRenderSetScissor
load_render_set_scissor buf = record {
  hdr = load_header buf;
  cmdbuf = load32 buf 16;
  rect = load_scissor_rect buf 20;
}

abbrev pub sizeof_render_set_scissor : ℕ
sizeof_render_set_scissor = 36

-- `gravity_cmd_render_set_cull_mode_t`
pub record CmdRenderSetCullMode : Type 0 where
  pub hdr : CmdHeader
  pub cmdbuf : ℕ
  pub cull_mode : ℕ

unfoldable pub load_render_set_cull_mode : List ℕ → CmdRenderSetCullMode
load_render_set_cull_mode buf = record {
  hdr = load_header buf;
  cmdbuf = load32 buf 16;
  cull_mode = load32 buf 20;
}

abbrev pub sizeof_render_set_cull_mode : ℕ
sizeof_render_set_cull_mode = 24

-- `gravity_cmd_render_set_depth_stencil_t`
pub record CmdRenderSetDepthStencil : Type 0 where
  pub hdr : CmdHeader
  pub cmdbuf : ℕ
  pub depth_stencil_state : ℕ

unfoldable pub load_render_set_depth_stencil : List ℕ → CmdRenderSetDepthStencil
load_render_set_depth_stencil buf = record {
  hdr = load_header buf;
  cmdbuf = load32 buf 16;
  depth_stencil_state = load32 buf 20;
}

abbrev pub sizeof_render_set_depth_stencil : ℕ
sizeof_render_set_depth_stencil = 24

-- `gravity_cmd_render_set_depth_bias_t`
pub record CmdRenderSetDepthBias : Type 0 where
  pub hdr : CmdHeader
  pub cmdbuf : ℕ
  pub depth_bias : ℕ
  pub slope_scale : ℕ
  pub clamp : ℕ

unfoldable pub load_render_set_depth_bias : List ℕ → CmdRenderSetDepthBias
load_render_set_depth_bias buf = record {
  hdr = load_header buf;
  cmdbuf = load32 buf 16;
  depth_bias = load32 buf 20;
  slope_scale = load32 buf 24;
  clamp = load32 buf 28;
}

abbrev pub sizeof_render_set_depth_bias : ℕ
sizeof_render_set_depth_bias = 32

-- `gravity_cmd_render_set_blend_color_t`
pub record CmdRenderSetBlendColor : Type 0 where
  pub hdr : CmdHeader
  pub cmdbuf : ℕ
  pub color : List ℕ

unfoldable pub load_render_set_blend_color : List ℕ → CmdRenderSetBlendColor
load_render_set_blend_color buf = record {
  hdr = load_header buf;
  cmdbuf = load32 buf 16;
  color = load_array load32 4 4 buf 20;
}

abbrev pub sizeof_render_set_blend_color : ℕ
sizeof_render_set_blend_color = 36

-- `gravity_cmd_render_draw_t`
pub record CmdRenderDraw : Type 0 where
  pub hdr : CmdHeader
  pub cmdbuf : ℕ
  pub primitive_type : ℕ
  pub vertex_start : ℕ
  pub vertex_count : ℕ

unfoldable pub load_render_draw : List ℕ → CmdRenderDraw
load_render_draw buf = record {
  hdr = load_header buf;
  cmdbuf = load32 buf 16;
  primitive_type = load32 buf 20;
  vertex_start = load32 buf 24;
  vertex_count = load32 buf 28;
}

abbrev pub sizeof_render_draw : ℕ
sizeof_render_draw = 36

-- `gravity_cmd_render_draw_indexed_t`
pub record CmdRenderDrawIndexed : Type 0 where
  pub hdr : CmdHeader
  pub cmdbuf : ℕ
  pub primitive_type : ℕ
  pub index_count : ℕ
  pub index_type : ℕ
  pub index_buffer : ℕ
  pub index_buffer_offset : ℕ

unfoldable pub load_render_draw_indexed : List ℕ → CmdRenderDrawIndexed
load_render_draw_indexed buf = record {
  hdr = load_header buf;
  cmdbuf = load32 buf 16;
  primitive_type = load32 buf 20;
  index_count = load32 buf 24;
  index_type = load32 buf 28;
  index_buffer = load32 buf 32;
  index_buffer_offset = load32 buf 36;
}

abbrev pub sizeof_render_draw_indexed : ℕ
sizeof_render_draw_indexed = 44

-- `gravity_cmd_render_draw_instanced_t`
pub record CmdRenderDrawInstanced : Type 0 where
  pub hdr : CmdHeader
  pub cmdbuf : ℕ
  pub primitive_type : ℕ
  pub vertex_start : ℕ
  pub vertex_count : ℕ
  pub instance_count : ℕ
  pub base_instance : ℕ

unfoldable pub load_render_draw_instanced : List ℕ → CmdRenderDrawInstanced
load_render_draw_instanced buf = record {
  hdr = load_header buf;
  cmdbuf = load32 buf 16;
  primitive_type = load32 buf 20;
  vertex_start = load32 buf 24;
  vertex_count = load32 buf 28;
  instance_count = load32 buf 32;
  base_instance = load32 buf 36;
}

abbrev pub sizeof_render_draw_instanced : ℕ
sizeof_render_draw_instanced = 44
