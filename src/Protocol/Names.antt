-- ===== src/Protocol/Names.antt =====
-- The name table and `gravity_cmd_name` of protocol/src/gravity_protocol.c.
use Prim.Native.String.{String}
use mathlib.Core.Option.{Option, none, some}
use mathlib.Core.List.{List, [], ◌∷◌}
use text.Mathlib.Text.{◌==◌ as str_eq}
use gravity_gpu_project.Prelude.{ℕ, ◌==◌, if◌then◌else◌, ◌≡◌, refl}
use gravity_gpu_project.Protocol.Opcode.{
  CmdOp, opcode, nop, hello, goodbye, ping, pong, get_device_info, device_info_response,
  create_buffer, destroy_buffer, create_texture, destroy_texture, create_sampler, destroy_sampler,
  create_shader, destroy_shader, create_render_pipeline, destroy_render_pipeline,
  create_compute_pipeline, destroy_compute_pipeline, create_depth_stencil, destroy_depth_stencil,
  cmdbuf_create, cmdbuf_commit, cmdbuf_wait, cmdbuf_completed, render_begin, render_end,
  render_set_pipeline, render_set_vertex_buffer, render_set_fragment_buffer,
  render_set_fragment_texture, render_set_fragment_sampler, render_set_vertex_texture,
  render_set_vertex_sampler, render_set_viewport, render_set_scissor, render_set_cull_mode,
  render_set_winding, render_set_depth_stencil, render_set_depth_bias, render_set_stencil_ref,
  render_set_blend_color, render_set_triangle_fill, render_draw, render_draw_indexed,
  render_draw_instanced, render_draw_indexed_instanced, render_draw_indirect, compute_begin,
  compute_end, compute_set_pipeline, compute_set_buffer, compute_set_texture, compute_set_sampler,
  compute_dispatch, compute_dispatch_indirect, blit_begin, blit_end, blit_copy_buffer,
  blit_copy_texture, blit_copy_buf_to_tex, blit_copy_tex_to_buf, blit_generate_mipmaps,
  blit_fill_buffer, blit_synchronize, create_fence, destroy_fence, wait_fence, signal_fence,
  create_event, destroy_event, upload_data, readback_data, present, resize_display,
}

-- `gravity_cmd_name_entry_t`
pub record NameEntry : Type 0 where
  pub op : CmdOp
  pub name : String

entry : CmdOp → String → NameEntry
entry c s = record { op = c; name = s }

pub cmd_names : List NameEntry
unfolding entry
cmd_names =
    entry nop "NOP"
    ∷ entry hello "HELLO"
    ∷ entry goodbye "GOODBYE"
    ∷ entry ping "PING"
    ∷ entry pong "PONG"
    ∷ entry get_device_info "GET_DEVICE_INFO"
    ∷ entry device_info_response "DEVICE_INFO_RESPONSE"
    ∷ entry create_buffer "CREATE_BUFFER"
    ∷ entry destroy_buffer "DESTROY_BUFFER"
    ∷ entry create_texture "CREATE_TEXTURE"
    ∷ entry destroy_texture "DESTROY_TEXTURE"
    ∷ entry create_sampler "CREATE_SAMPLER"
    ∷ entry destroy_sampler "DESTROY_SAMPLER"
    ∷ entry create_shader "CREATE_SHADER"
    ∷ entry destroy_shader "DESTROY_SHADER"
    ∷ entry create_render_pipeline "CREATE_RENDER_PIPELINE"
    ∷ entry destroy_render_pipeline "DESTROY_RENDER_PIPELINE"
    ∷ entry create_compute_pipeline "CREATE_COMPUTE_PIPELINE"
    ∷ entry destroy_compute_pipeline "DESTROY_COMPUTE_PIPELINE"
    ∷ entry create_depth_stencil "CREATE_DEPTH_STENCIL"
    ∷ entry destroy_depth_stencil "DESTROY_DEPTH_STENCIL"
    ∷ entry cmdbuf_create "CMDBUF_CREATE"
    ∷ entry cmdbuf_commit "CMDBUF_COMMIT"
    ∷ entry cmdbuf_wait "CMDBUF_WAIT"
    ∷ entry cmdbuf_completed "CMDBUF_COMPLETED"
    ∷ entry render_begin "RENDER_BEGIN"
    ∷ entry render_end "RENDER_END"
    ∷ entry render_set_pipeline "RENDER_SET_PIPELINE"
    ∷ entry render_set_vertex_buffer "RENDER_SET_VERTEX_BUFFER"
    ∷ entry render_set_fragment_buffer "RENDER_SET_FRAGMENT_BUFFER"
    ∷ entry render_set_fragment_texture "RENDER_SET_FRAGMENT_TEXTURE"
    ∷ entry render_set_fragment_sampler "RENDER_SET_FRAGMENT_SAMPLER"
    ∷ entry render_set_vertex_texture "RENDER_SET_VERTEX_TEXTURE"
    ∷ entry render_set_vertex_sampler "RENDER_SET_VERTEX_SAMPLER"
    ∷ entry render_set_viewport "RENDER_SET_VIEWPORT"
    ∷ entry render_set_scissor "RENDER_SET_SCISSOR"
    ∷ entry render_set_cull_mode "RENDER_SET_CULL_MODE"
    ∷ entry render_set_winding "RENDER_SET_WINDING"
    ∷ entry render_set_depth_stencil "RENDER_SET_DEPTH_STENCIL"
    ∷ entry render_set_depth_bias "RENDER_SET_DEPTH_BIAS"
    ∷ entry render_set_stencil_ref "RENDER_SET_STENCIL_REF"
    ∷ entry render_set_blend_color "RENDER_SET_BLEND_COLOR"
    ∷ entry render_set_triangle_fill "RENDER_SET_TRIANGLE_FILL"
    ∷ entry render_draw "RENDER_DRAW"
    ∷ entry render_draw_indexed "RENDER_DRAW_INDEXED"
    ∷ entry render_draw_instanced "RENDER_DRAW_INSTANCED"
    ∷ entry render_draw_indexed_instanced "RENDER_DRAW_INDEXED_INSTANCED"
    ∷ entry render_draw_indirect "RENDER_DRAW_INDIRECT"
    ∷ entry compute_begin "COMPUTE_BEGIN"
    ∷ entry compute_end "COMPUTE_END"
    ∷ entry compute_set_pipeline "COMPUTE_SET_PIPELINE"
    ∷ entry compute_set_buffer "COMPUTE_SET_BUFFER"
    ∷ entry compute_set_texture "COMPUTE_SET_TEXTURE"
    ∷ entry compute_set_sampler "COMPUTE_SET_SAMPLER"
    ∷ entry compute_dispatch "COMPUTE_DISPATCH"
    ∷ entry compute_dispatch_indirect "COMPUTE_DISPATCH_INDIRECT"
    ∷ entry blit_begin "BLIT_BEGIN"
    ∷ entry blit_end "BLIT_END"
    ∷ entry blit_copy_buffer "BLIT_COPY_BUFFER"
    ∷ entry blit_copy_texture "BLIT_COPY_TEXTURE"
    ∷ entry blit_copy_buf_to_tex "BLIT_COPY_BUF_TO_TEX"
    ∷ entry blit_copy_tex_to_buf "BLIT_COPY_TEX_TO_BUF"
    ∷ entry blit_generate_mipmaps "BLIT_GENERATE_MIPMAPS"
    ∷ entry blit_fill_buffer "BLIT_FILL_BUFFER"
    ∷ entry blit_synchronize "BLIT_SYNCHRONIZE"
    ∷ entry create_fence "CREATE_FENCE"
    ∷ entry destroy_fence "DESTROY_FENCE"
    ∷ entry wait_fence "WAIT_FENCE"
    ∷ entry signal_fence "SIGNAL_FENCE"
    ∷ entry create_event "CREATE_EVENT"
    ∷ entry destroy_event "DESTROY_EVENT"
    ∷ entry upload_data "UPLOAD_DATA"
    ∷ entry readback_data "READBACK_DATA"
    ∷ entry present "PRESENT"
    ∷ entry resize_display "RESIZE_DISPLAY"
    ∷ []

find_name : List NameEntry → ℕ → String
find_name [] code = "UNKNOWN"
find_name (e ∷ es) code = if opcode e.op == code then e.name else find_name es code

pub cmd_name : ℕ → String
unfolding find_name cmd_names
cmd_name code = find_name cmd_names code

-- The reverse reading of the table: the first opcode under a name.
find_op : List NameEntry → String → Option CmdOp
find_op [] s = none
find_op (e ∷ es) s = if str_eq e.name s then some e.op else find_op es s

pub op_of_name : String → Option CmdOp
unfolding find_op cmd_names
op_of_name s = find_op cmd_names s

-- The name that `gravity_cmd_name` gives an opcode is in the table for that opcode only: looking
-- the name up finds the opcode again.
pub op_of_name-cmd_name : (c : CmdOp) → op_of_name (cmd_name (opcode c)) ≡ some c
unfolding op_of_name cmd_name opcode
op_of_name-cmd_name nop = refl
op_of_name-cmd_name hello = refl
op_of_name-cmd_name goodbye = refl
op_of_name-cmd_name ping = refl
op_of_name-cmd_name pong = refl
op_of_name-cmd_name get_device_info = refl
op_of_name-cmd_name device_info_response = refl
op_of_name-cmd_name create_buffer = refl
op_of_name-cmd_name destroy_buffer = refl
op_of_name-cmd_name create_texture = refl
op_of_name-cmd_name destroy_texture = refl
op_of_name-cmd_name create_sampler = refl
op_of_name-cmd_name destroy_sampler = refl
op_of_name-cmd_name create_shader = refl
op_of_name-cmd_name destroy_shader = refl
op_of_name-cmd_name create_render_pipeline = refl
op_of_name-cmd_name destroy_render_pipeline = refl
op_of_name-cmd_name create_compute_pipeline = refl
op_of_name-cmd_name destroy_compute_pipeline = refl
op_of_name-cmd_name create_depth_stencil = refl
op_of_name-cmd_name destroy_depth_stencil = refl
op_of_name-cmd_name cmdbuf_create = refl
op_of_name-cmd_name cmdbuf_commit = refl
op_of_name-cmd_name cmdbuf_wait = refl
op_of_name-cmd_name cmdbuf_completed = refl
op_of_name-cmd_name render_begin = refl
op_of_name-cmd_name render_end = refl
op_of_name-cmd_name render_set_pipeline = refl
op_of_name-cmd_name render_set_vertex_buffer = refl
op_of_name-cmd_name render_set_fragment_buffer = refl
op_of_name-cmd_name render_set_fragment_texture = refl
op_of_name-cmd_name render_set_fragment_sampler = refl
op_of_name-cmd_name render_set_vertex_texture = refl
op_of_name-cmd_name render_set_vertex_sampler = refl
op_of_name-cmd_name render_set_viewport = refl
op_of_name-cmd_name render_set_scissor = refl
op_of_name-cmd_name render_set_cull_mode = refl
op_of_name-cmd_name render_set_winding = refl
op_of_name-cmd_name render_set_depth_stencil = refl
op_of_name-cmd_name render_set_depth_bias = refl
op_of_name-cmd_name render_set_stencil_ref = refl
op_of_name-cmd_name render_set_blend_color = refl
op_of_name-cmd_name render_set_triangle_fill = refl
op_of_name-cmd_name render_draw = refl
op_of_name-cmd_name render_draw_indexed = refl
op_of_name-cmd_name render_draw_instanced = refl
op_of_name-cmd_name render_draw_indexed_instanced = refl
op_of_name-cmd_name render_draw_indirect = refl
op_of_name-cmd_name compute_begin = refl
op_of_name-cmd_name compute_end = refl
op_of_name-cmd_name compute_set_pipeline = refl
op_of_name-cmd_name compute_set_buffer = refl
op_of_name-cmd_name compute_set_texture = refl
op_of_name-cmd_name compute_set_sampler = refl
op_of_name-cmd_name compute_dispatch = refl
op_of_name-cmd_name compute_dispatch_indirect = refl
op_of_name-cmd_name blit_begin = refl
op_of_name-cmd_name blit_end = refl
op_of_name-cmd_name blit_copy_buffer = refl
op_of_name-cmd_name blit_copy_texture = refl
op_of_name-cmd_name blit_copy_buf_to_tex = refl
op_of_name-cmd_name blit_copy_tex_to_buf = refl
op_of_name-cmd_name blit_generate_mipmaps = refl
op_of_name-cmd_name blit_fill_buffer = refl
op_of_name-cmd_name blit_synchronize = refl
op_of_name-cmd_name create_fence = refl
op_of_name-cmd_name destroy_fence = refl
op_of_name-cmd_name wait_fence = refl
op_of_name-cmd_name signal_fence = refl
op_of_name-cmd_name create_event = refl
op_of_name-cmd_name destroy_event = refl
op_of_name-cmd_name upload_data = refl
op_of_name-cmd_name readback_data = refl
op_of_name-cmd_name present = refl
op_of_name-cmd_name resize_display = refl
