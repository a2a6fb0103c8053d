-- ===== src/Commands/Render.antt =====
-- The other commands of `gravity_cmd_process_render`.
use gravity_gpu_project.Prelude.{ℕ, Option, none, some, List}
use gravity_gpu_project.Protocol.Opcode.{CmdOp}
use gravity_gpu_project.Tracker.Table.{get}
use gravity_gpu_project.Tracker.Resource.{BufferResource}
use gravity_gpu_project.Formats.Convert.{to_vk_index_type}
use gravity_gpu_project.Payload.Pass.{load_render_begin, load_render_end}
use gravity_gpu_project.Payload.Render.{
  Viewport as MetalViewport, CmdRenderSetViewport, load_render_set_viewport, CmdRenderSetScissor,
  load_render_set_scissor, CmdRenderSetVertexBuffer, load_render_set_vertex_buffer, CmdRenderDraw,
  load_render_draw, CmdRenderDrawIndexed, load_render_draw_indexed, CmdRenderDrawInstanced,
  load_render_draw_instanced,
}
use gravity_gpu_project.Vulkan.Calls.{
  Viewport, Recorded, set_viewport, set_scissor, bind_vertex_buffer, bind_index_buffer, draw,
  draw_indexed,
}
use gravity_gpu_project.Commands.Host.{Host, Machine, as_buffer}
use gravity_gpu_project.Commands.Pass.{emit_at, render_begin, render_end}

-- the labels of the switch; its `default`, for the other render commands, does nothing
pub data RenderLabel : Type 0 where
  begins ends viewport scissor vertex_buffer draws draws_indexed draws_instanced : RenderLabel

unfoldable pub render_op : RenderLabel → CmdOp
render_op begins = CmdOp.render_begin
render_op ends = CmdOp.render_end
render_op viewport = CmdOp.render_set_viewport
render_op scissor = CmdOp.render_set_scissor
render_op vertex_buffer = CmdOp.render_set_vertex_buffer
render_op draws = CmdOp.render_draw
render_op draws_indexed = CmdOp.render_draw_indexed
render_op draws_instanced = CmdOp.render_draw_instanced

module _ (machine : Machine) where
  -- a command for the command buffer with a handle, which is dropped when there is none
  unfoldable pub on_cmdbuf : Host → ℕ → Recorded → Host
  on_cmdbuf host handle c = elim (get host.tracker handle) [
    | none ↦ host
    | some i ↦ emit_at machine host i c
  ]

  abbrev pub buffer_of : Host → ℕ → BufferResource
  buffer_of host b = as_buffer machine (host.tracker.entries b).payload

  -- the viewport upside down
  unfoldable pub flipped : MetalViewport → Viewport
  flipped v = record {
    x = v.x;
    y = machine.float_add v.y v.height;
    width = v.width;
    height = machine.float_neg v.height;
    min_depth = v.znear;
    max_depth = v.zfar;
  }

  unfoldable pub process_set_viewport : CmdRenderSetViewport → Host → Host
  unfolding on_cmdbuf flipped
  process_set_viewport cmd host = on_cmdbuf host cmd.cmdbuf (set_viewport (flipped cmd.viewport))

  unfoldable pub process_set_scissor : CmdRenderSetScissor → Host → Host
  unfolding on_cmdbuf
  process_set_scissor cmd host =
      let r = cmd.rect in
      on_cmdbuf host cmd.cmdbuf
        (set_scissor (record { x = r.x; y = r.y; width = r.width; height = r.height }))

  unfoldable pub process_set_vertex_buffer : CmdRenderSetVertexBuffer → Host → Host
  unfolding on_cmdbuf
  process_set_vertex_buffer cmd host = elim (get host.tracker cmd.buffer) [
    | none ↦ host
    | some b ↦
        on_cmdbuf host cmd.cmdbuf
          (bind_vertex_buffer cmd.index (buffer_of host b).buffer cmd.offset)
  ]

  unfoldable pub process_draw : CmdRenderDraw → Host → Host
  unfolding on_cmdbuf
  process_draw cmd host = on_cmdbuf host cmd.cmdbuf (draw cmd.vertex_count 1 cmd.vertex_start 0)

  unfoldable pub process_draw_indexed : CmdRenderDrawIndexed → Host → Host
  unfolding on_cmdbuf
  process_draw_indexed cmd host = elim (get host.tracker cmd.index_buffer) [
    | none ↦ host
    | some b ↦
        let bound = on_cmdbuf host cmd.cmdbuf (
          bind_index_buffer (buffer_of host b).buffer cmd.index_buffer_offset
            (to_vk_index_type cmd.index_type)) in
        on_cmdbuf bound cmd.cmdbuf (draw_indexed cmd.index_count 1)
  ]

  unfoldable pub process_draw_instanced : CmdRenderDrawInstanced → Host → Host
  unfolding on_cmdbuf
  process_draw_instanced cmd host =
      on_cmdbuf host cmd.cmdbuf
        (draw cmd.vertex_count cmd.instance_count cmd.vertex_start cmd.base_instance)

  -- The switch; `none` is an index outside an array.
  unfoldable pub process_render : RenderLabel → List ℕ → Host → Option Host
  process_render begins buf host = render_begin machine (load_render_begin buf) host
  process_render ends buf host = some (render_end machine (load_render_end buf) host)
  process_render viewport buf host = some (process_set_viewport (load_render_set_viewport buf) host)
  process_render scissor buf host = some (process_set_scissor (load_render_set_scissor buf) host)
  process_render vertex_buffer buf host =
      some (process_set_vertex_buffer (load_render_set_vertex_buffer buf) host)
  process_render draws buf host = some (process_draw (load_render_draw buf) host)
  process_render draws_indexed buf host =
      some (process_draw_indexed (load_render_draw_indexed buf) host)
  process_render draws_instanced buf host =
      some (process_draw_instanced (load_render_draw_instanced buf) host)
