-- ===== src/Payload/Pass.antt =====
-- The payloads of protocol/include/gravity_protocol.h: the commands that begin and end a render
-- pass. The structs are packed, a float is its 32 bits, and a reserved field is not read.
use gravity_gpu_project.Prelude.{ℕ, ◌+◌, List, load32}
use gravity_gpu_project.Payload.Load.{load_array, max_color_attachments}
use gravity_gpu_project.Protocol.Header.{CmdHeader, load_header}

-- `gravity_color_attachment_action_t`
pub record ColorAttachmentAction : Type 0 where
  pub texture : ℕ
  pub level : ℕ
  pub slice : ℕ
  pub load_action : ℕ
  pub store_action : ℕ
  pub clear_color : List ℕ

unfoldable pub load_color_attachment_action : List ℕ → ℕ → ColorAttachmentAction
load_color_attachment_action buf i = record {
  texture = load32 buf i;
  level = load32 buf (i + 4);
  slice = load32 buf (i + 8);
  load_action = load32 buf (i + 12);
  store_action = load32 buf (i + 16);
  clear_color = load_array load32 4 4 buf (i + 20);
}

-- `gravity_depth_attachment_action_t`
pub record DepthAttachmentAction : Type 0 where
  pub texture : ℕ
  pub level : ℕ
  pub slice : ℕ
  pub load_action : ℕ
  pub store_action : ℕ
  pub clear_depth : ℕ

unfoldable pub load_depth_attachment_action : List ℕ → ℕ → DepthAttachmentAction
load_depth_attachment_action buf i = record {
  texture = load32 buf i;
  level = load32 buf (i + 4);
  slice = load32 buf (i + 8);
  load_action = load32 buf (i + 12);
  store_action = load32 buf (i + 16);
  clear_depth = load32 buf (i + 20);
}

-- `gravity_stencil_attachment_action_t`
pub record StencilAttachmentAction : Type 0 where
  pub texture : ℕ
  pub level : ℕ
  pub slice : ℕ
  pub load_action : ℕ
  pub store_action : ℕ
  pub clear_stencil : ℕ

unfoldable pub load_stencil_attachment_action : List ℕ → ℕ → StencilAttachmentAction
load_stencil_attachment_action buf i = record {
  texture = load32 buf i;
  level = load32 buf (i + 4);
  slice = load32 buf (i + 8);
  load_action = load32 buf (i + 12);
  store_action = load32 buf (i + 16);
  clear_stencil = load32 buf (i + 20);
}

-- `gravity_cmd_render_begin_t`
pub record CmdRenderBegin : Type 0 where
  pub hdr : CmdHeader
  pub cmdbuf : ℕ
  pub num_color_attachments : ℕ
  pub color_attachments : List ColorAttachmentAction
  pub depth_attachment : DepthAttachmentAction
  pub stencil_attachment : StencilAttachmentAction
  pub render_area_x : ℕ
  pub render_area_y : ℕ
  pub render_area_width : ℕ
  pub render_area_height : ℕ

unfoldable pub load_render_begin : List ℕ → CmdRenderBegin
load_render_begin buf = record {
  hdr = load_header buf;
  cmdbuf = load32 buf 16;
  num_color_attachments = load32 buf 20;
  color_attachments = load_array load_color_attachment_action max_color_attachments 36 buf 24;
  depth_attachment = load_depth_attachment_action buf 312;
  stencil_attachment = load_stencil_attachment_action buf 340;
  render_area_x = load32 buf 368;
  render_area_y = load32 buf 372;
  render_area_width = load32 buf 376;
  render_area_height = load32 buf 380;
}

abbrev pub sizeof_render_begin : ℕ
sizeof_render_begin = 384

-- `gravity_cmd_render_end_t`
pub record CmdRenderEnd : Type 0 where
  pub hdr : CmdHeader
  pub cmdbuf : ℕ

unfoldable pub load_render_end : List ℕ → CmdRenderEnd
load_render_end buf = record { hdr = load_header buf; cmdbuf = load32 buf 16 }

abbrev pub sizeof_render_end : ℕ
sizeof_render_end = 20
