-- ===== src/Payload/Pipeline.antt =====
-- The payloads of protocol/include/gravity_protocol.h: the command that creates a render pipeline,
-- with its descriptors. The structs are packed, a float is its 32 bits, and a reserved field is
-- not read.
use gravity_gpu_project.Prelude.{ℕ, ◌+◌, List, load32}
use gravity_gpu_project.Payload.Load.{
  load_array, load8, max_color_attachments, max_vertex_attributes, max_vertex_buffers,
}
use gravity_gpu_project.Protocol.Header.{CmdHeader, load_header}

-- `gravity_vertex_attribute_desc_t`
pub record VertexAttributeDesc : Type 0 where
  pub format : ℕ
  pub offset : ℕ
  pub buffer_index : ℕ

unfoldable pub load_vertex_attribute_desc : List ℕ → ℕ → VertexAttributeDesc
load_vertex_attribute_desc buf i = record {
  format = load32 buf i;
  offset = load32 buf (i + 4);
  buffer_index = load32 buf (i + 8);
}

-- `gravity_vertex_buffer_layout_desc_t`
pub record VertexBufferLayoutDesc : Type 0 where
  pub stride : ℕ
  pub step_function : ℕ
  pub step_rate : ℕ

unfoldable pub load_vertex_buffer_layout_desc : List ℕ → ℕ → VertexBufferLayoutDesc
load_vertex_buffer_layout_desc buf i = record {
  stride = load32 buf i;
  step_function = load32 buf (i + 4);
  step_rate = load32 buf (i + 8);
}

-- `gravity_color_attachment_desc_t`
pub record ColorAttachmentDesc : Type 0 where
  pub pixel_format : ℕ
  pub blending_enabled : ℕ
  pub write_mask : ℕ
  pub rgb_blend_operation : ℕ
  pub alpha_blend_operation : ℕ
  pub src_rgb_blend_factor : ℕ
  pub dst_rgb_blend_factor : ℕ
  pub src_alpha_blend_factor : ℕ
  pub dst_alpha_blend_factor : ℕ

unfoldable pub load_color_attachment_desc : List ℕ → ℕ → ColorAttachmentDesc
load_color_attachment_desc buf i = record {
  pixel_format = load32 buf i;
  blending_enabled = load8 buf (i + 4);
  write_mask = load8 buf (i + 5);
  rgb_blend_operation = load32 buf (i + 8);
  alpha_blend_operation = load32 buf (i + 12);
  src_rgb_blend_factor = load32 buf (i + 16);
  dst_rgb_blend_factor = load32 buf (i + 20);
  src_alpha_blend_factor = load32 buf (i + 24);
  dst_alpha_blend_factor = load32 buf (i + 28);
}

-- `gravity_cmd_create_render_pipeline_t`
pub record CmdCreateRenderPipeline : Type 0 where
  pub hdr : CmdHeader
  pub handle : ℕ
  pub vertex_shader : ℕ
  pub fragment_shader : ℕ
  pub num_vertex_attributes : ℕ
  pub vertex_attributes : List VertexAttributeDesc
  pub num_vertex_buffer_layouts : ℕ
  pub vertex_buffer_layouts : List VertexBufferLayoutDesc
  pub num_color_attachments : ℕ
  pub color_attachments : List ColorAttachmentDesc
  pub depth_attachment_format : ℕ
  pub stencil_attachment_format : ℕ
  pub sample_count : ℕ
  pub alpha_to_coverage_enabled : ℕ
  pub alpha_to_one_enabled : ℕ
  pub rasterization_enabled : ℕ

unfoldable pub load_create_render_pipeline : List ℕ → CmdCreateRenderPipeline
load_create_render_pipeline buf = record {
  hdr = load_header buf;
  handle = load32 buf 16;
  vertex_shader = load32 buf 20;
  fragment_shader = load32 buf 24;
  num_vertex_attributes = load32 buf 28;
  vertex_attributes = load_array load_vertex_attribute_desc max_vertex_attributes 16 buf 32;
  num_vertex_buffer_layouts = load32 buf 528;
  vertex_buffer_layouts = load_array load_vertex_buffer_layout_desc max_vertex_buffers 16 buf 532;
  num_color_attachments = load32 buf 1028;
  color_attachments = load_array load_color_attachment_desc max_color_attachments 32 buf 1032;
  depth_attachment_format = load32 buf 1288;
  stencil_attachment_format = load32 buf 1292;
  sample_count = load32 buf 1296;
  alpha_to_coverage_enabled = load8 buf 1300;
  alpha_to_one_enabled = load8 buf 1301;
  rasterization_enabled = load8 buf 1302;
}

abbrev pub sizeof_create_render_pipeline : ℕ
sizeof_create_render_pipeline = 1308
