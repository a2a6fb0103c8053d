-- ===== src/Protocol/Opcode.antt =====
-- The command opcodes: `gravity_cmd_op_t` of protocol/include/gravity_protocol.h.
use Prim.Native.Nat.{ℕ}

pub data CmdOp : Type 0 where
  nop hello goodbye ping pong get_device_info device_info_response create_buffer : CmdOp
  destroy_buffer create_texture destroy_texture create_sampler destroy_sampler : CmdOp
  create_shader destroy_shader create_render_pipeline destroy_render_pipeline : CmdOp
  create_compute_pipeline destroy_compute_pipeline create_depth_stencil : CmdOp
  destroy_depth_stencil cmdbuf_create cmdbuf_commit cmdbuf_wait cmdbuf_completed : CmdOp
  render_begin render_end render_set_pipeline render_set_vertex_buffer : CmdOp
  render_set_fragment_buffer render_set_fragment_texture render_set_fragment_sampler : CmdOp
  render_set_vertex_texture render_set_vertex_sampler render_set_viewport : CmdOp
  render_set_scissor render_set_cull_mode render_set_winding render_set_depth_stencil : CmdOp
  render_set_depth_bias render_set_stencil_ref render_set_blend_color : CmdOp
  render_set_triangle_fill render_draw render_draw_indexed render_draw_instanced : CmdOp
  render_draw_indexed_instanced render_draw_indirect compute_begin compute_end : CmdOp
  compute_set_pipeline compute_set_buffer compute_set_texture compute_set_sampler : CmdOp
  compute_dispatch compute_dispatch_indirect blit_begin blit_end blit_copy_buffer : CmdOp
  blit_copy_texture blit_copy_buf_to_tex blit_copy_tex_to_buf blit_generate_mipmaps : CmdOp
  blit_fill_buffer blit_synchronize create_fence destroy_fence wait_fence signal_fence : CmdOp
  create_event destroy_event upload_data readback_data present resize_display : CmdOp

-- the value that stands in the header
unfoldable pub opcode : CmdOp → ℕ
opcode nop = 0x0000
opcode hello = 0x0001
opcode goodbye = 0x0002
opcode ping = 0x0003
opcode pong = 0x0004
opcode get_device_info = 0x0100
opcode device_info_response = 0x0101
opcode create_buffer = 0x0200
opcode destroy_buffer = 0x0201
opcode create_texture = 0x0210
opcode destroy_texture = 0x0211
opcode create_sampler = 0x0220
opcode destroy_sampler = 0x0221
opcode create_shader = 0x0300
opcode destroy_shader = 0x0301
opcode create_render_pipeline = 0x0400
opcode destroy_render_pipeline = 0x0401
opcode create_compute_pipeline = 0x0410
opcode destroy_compute_pipeline = 0x0411
opcode create_depth_stencil = 0x0420
opcode destroy_depth_stencil = 0x0421
opcode cmdbuf_create = 0x0500
opcode cmdbuf_commit = 0x0501
opcode cmdbuf_wait = 0x0502
opcode cmdbuf_completed = 0x0503
opcode render_begin = 0x0600
opcode render_end = 0x0601
opcode render_set_pipeline = 0x0610
opcode render_set_vertex_buffer = 0x0611
opcode render_set_fragment_buffer = 0x0612
opcode render_set_fragment_texture = 0x0613
opcode render_set_fragment_sampler = 0x0614
opcode render_set_vertex_texture = 0x0615
opcode render_set_vertex_sampler = 0x0616
opcode render_set_viewport = 0x0620
opcode render_set_scissor = 0x0621
opcode render_set_cull_mode = 0x0622
opcode render_set_winding = 0x0623
opcode render_set_depth_stencil = 0x0624
opcode render_set_depth_bias = 0x0625
opcode render_set_stencil_ref = 0x0626
opcode render_set_blend_color = 0x0627
opcode render_set_triangle_fill = 0x0628
opcode render_draw = 0x0640
opcode render_draw_indexed = 0x0641
opcode render_draw_instanced = 0x0642
opcode render_draw_indexed_instanced = 0x0643
opcode render_draw_indirect = 0x0644
opcode compute_begin = 0x0700
opcode compute_end = 0x0701
opcode compute_set_pipeline = 0x0710
opcode compute_set_buffer = 0x0711
opcode compute_set_texture = 0x0712
opcode compute_set_sampler = 0x0713
opcode compute_dispatch = 0x0740
opcode compute_dispatch_indirect = 0x0741
opcode blit_begin = 0x0800
opcode blit_end = 0x0801
opcode blit_copy_buffer = 0x0810
opcode blit_copy_texture = 0x0811
opcode blit_copy_buf_to_tex = 0x0812
opcode blit_copy_tex_to_buf = 0x0813
opcode blit_generate_mipmaps = 0x0820
opcode blit_fill_buffer = 0x0830
opcode blit_synchronize = 0x0840
opcode create_fence = 0x0900
opcode destroy_fence = 0x0901
opcode wait_fence = 0x0902
opcode signal_fence = 0x0903
opcode create_event = 0x0910
opcode destroy_event = 0x0911
opcode upload_data = 0x0a00
opcode readback_data = 0x0a01
opcode present = 0x0b00
opcode resize_display = 0x0b01

-- GRAVITY_CMD_MAX, one past the last opcode
abbrev pub cmd_max : ℕ
cmd_max = 0x0b02
