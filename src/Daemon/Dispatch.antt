-- ===== src/Daemon/Dispatch.antt =====
-- `process_command` of host-daemon/src/main.c, less what it prints.
use gravity_gpu_project.Prelude.{
  ℕ, ◌+◌, ◌*◌, ◌^◌, Option, none, some, List, [], ◌∷◌, ◌++◌, if◌then◌else◌, ◌==◌, map, bytes16,
  bytes32,
}
use gravity_gpu_project.Protocol.Opcode.{CmdOp, opcode, pong}
use gravity_gpu_project.Protocol.Header.{CmdHeader, header_size, cmd_init, header_bytes}
use gravity_gpu_project.Device.State.{protocol_magic}
use gravity_gpu_project.Ring.Memory.{Shm, Ring}
use gravity_gpu_project.Tracker.Table.{remove}
use gravity_gpu_project.Payload.System.{
  CmdHelloResponse, sizeof_hello_response, load_cmdbuf_create, load_cmdbuf_commit,
}
use gravity_gpu_project.Payload.Create.{
  load_create_buffer, load_create_texture, load_create_sampler, load_create_shader,
  load_create_depth_stencil, load_destroy_buffer, load_destroy_texture, load_destroy_sampler,
}
use gravity_gpu_project.Payload.Pipeline.{load_create_render_pipeline}
use gravity_gpu_project.Vulkan.Calls.{Vulkan}
use gravity_gpu_project.Vulkan.State.{VkState}
use gravity_gpu_project.Commands.Host.{Host, Machine, send}
use gravity_gpu_project.Commands.Buffer.{process_create_buffer}
use gravity_gpu_project.Commands.Texture.{process_create_texture}
use gravity_gpu_project.Commands.Simple.{
  process_create_sampler, process_create_shader, process_create_depth_stencil,
  process_create_render_pipeline,
}
use gravity_gpu_project.Commands.Cmdbuf.{process_cmdbuf_create, process_cmdbuf_commit}
use gravity_gpu_project.Commands.Render.{
  RenderLabel, begins, ends, viewport, scissor, vertex_buffer, draws, draws_indexed,
  draws_instanced, render_op, process_render,
}

-- GRAVITY_FEAT_RING_BUFFER, _SHADER_MSL, _COMPUTE, _BLIT and _DISPLAY
abbrev pub host_features : ℕ
host_features = 2 ^ 0 + 2 ^ 1 + 2 ^ 3 + 2 ^ 4 + 2 ^ 6

-- what the daemon answers to a hello
unfoldable pub hello_response : ℕ → CmdHelloResponse
hello_response sequence = record {
  hdr = cmd_init (opcode CmdOp.hello) sizeof_hello_response sequence;
  magic = protocol_magic;
  version_major = 0;
  version_minor = 1;
  host_features = host_features;
  max_texture_size = 16384;
  max_buffer_size = 256 * 1024 * 1024;
  max_threads_per_group = 1024;
}

-- its bytes, with the four reserved words cleared
unfoldable pub hello_response_bytes : CmdHelloResponse → List ℕ
hello_response_bytes r =
    header_bytes r.hdr
    ++ (bytes32 r.magic
        ++ (bytes16 r.version_major
            ++ (bytes16 r.version_minor
                ++ (bytes32 r.host_features
                    ++ (bytes32 r.max_texture_size
                        ++ (bytes32 r.max_buffer_size
                            ++ (bytes32 r.max_threads_per_group
                                ++ (bytes32 0 ++ (bytes32 0 ++ (bytes32 0 ++ bytes32 0))))))))))

-- the answer to a ping
unfoldable pub pong_bytes : ℕ → List ℕ
pong_bytes sequence = header_bytes (cmd_init (opcode pong) header_size sequence)

-- The labels of the switch that do something to the daemon's state. For the labels that call
-- `gravity_cmd_process_render` they are those of its own switch.
pub data Label : Type 0 where
  hello ping create_buffer destroy_buffer create_texture destroy_texture create_sampler : Label
  destroy_sampler create_shader create_render_pipeline create_depth_stencil : Label
  cmdbuf_create cmdbuf_commit : Label
  render : RenderLabel → Label

unfoldable pub label_op : Label → CmdOp
unfolding render_op
label_op Label.hello = CmdOp.hello
label_op Label.ping = CmdOp.ping
label_op Label.create_buffer = CmdOp.create_buffer
label_op Label.destroy_buffer = CmdOp.destroy_buffer
label_op Label.create_texture = CmdOp.create_texture
label_op Label.destroy_texture = CmdOp.destroy_texture
label_op Label.create_sampler = CmdOp.create_sampler
label_op Label.destroy_sampler = CmdOp.destroy_sampler
label_op Label.create_shader = CmdOp.create_shader
label_op Label.create_render_pipeline = CmdOp.create_render_pipeline
label_op Label.create_depth_stencil = CmdOp.create_depth_stencil
label_op Label.cmdbuf_create = CmdOp.cmdbuf_create
label_op Label.cmdbuf_commit = CmdOp.cmdbuf_commit
label_op (Label.render r) = render_op r

abbrev pub render_labels : List RenderLabel
render_labels =
    begins ∷ ends ∷ vertex_buffer ∷ viewport ∷ scissor ∷ draws ∷ draws_indexed ∷ draws_instanced
    ∷ []

unfoldable pub labels : List Label
labels =
    Label.hello
    ∷ Label.ping
    ∷ Label.create_buffer
    ∷ Label.destroy_buffer
    ∷ Label.create_texture
    ∷ Label.destroy_texture
    ∷ Label.create_sampler
    ∷ Label.destroy_sampler
    ∷ Label.create_shader
    ∷ Label.create_render_pipeline
    ∷ Label.create_depth_stencil
    ∷ Label.cmdbuf_create
    ∷ Label.cmdbuf_commit
    ∷ map Label.render render_labels

-- The label that an opcode selects; `none` stands for the commands that do nothing: stubs, NOP,
-- GOODBYE and `default`.
unfoldable pub select : ℕ → List Label → Option Label
select n [] = none
select n (l ∷ rest_labels) =
    let rest = select n rest_labels in if n == opcode (label_op l) then some l else rest

module _ (vulkan : Vulkan) (machine : Machine) (vk : VkState) (ring : Ring) where
  -- the tracker without the handle
  abbrev forget : Host → ℕ → Host
  forget host handle = record host { tracker = remove host.tracker handle }

  -- the shared memory as it is beside the result of a handler
  unfoldable pub beside : Shm → Option Host → Option (Shm × Host)
  beside shm none = none
  beside shm (some host) = some (shm, host)

  unfoldable pub run_label : Label → CmdHeader → List ℕ → Shm → Host → Option (Shm × Host)
  unfolding beside
  run_label Label.hello hdr buf shm host =
      some (send ring shm (hello_response_bytes (hello_response hdr.sequence)), host)
  run_label Label.ping hdr buf shm host = some (send ring shm (pong_bytes hdr.sequence), host)
  run_label Label.create_buffer hdr buf shm host =
      some (shm, process_create_buffer vulkan vk ring shm (load_create_buffer buf) host)
  run_label Label.destroy_buffer hdr buf shm host =
      some (shm, forget host (load_destroy_buffer buf).handle)
  run_label Label.create_texture hdr buf shm host =
      some (shm, process_create_texture vulkan vk (load_create_texture buf) host)
  run_label Label.destroy_texture hdr buf shm host =
      some (shm, forget host (load_destroy_texture buf).handle)
  run_label Label.create_sampler hdr buf shm host =
      some (shm, process_create_sampler vulkan machine (load_create_sampler buf) host)
  run_label Label.destroy_sampler hdr buf shm host =
      some (shm, forget host (load_destroy_sampler buf).handle)
  run_label Label.create_shader hdr buf shm host =
      some (shm, process_create_shader (load_create_shader buf) host)
  run_label Label.create_render_pipeline hdr buf shm host =
      some (shm, process_create_render_pipeline (load_create_render_pipeline buf) host)
  run_label Label.create_depth_stencil hdr buf shm host =
      some (shm, process_create_depth_stencil (load_create_depth_stencil buf) host)
  run_label Label.cmdbuf_create hdr buf shm host =
      some (shm, process_cmdbuf_create vulkan vk (load_cmdbuf_create buf) host)
  run_label Label.cmdbuf_commit hdr buf shm host =
      process_cmdbuf_commit vulkan machine vk ring (load_cmdbuf_commit buf) shm host
  run_label (Label.render r) hdr buf shm host = beside shm (process_render machine r buf host)

  unfoldable pub run_selected : Option Label → CmdHeader → List ℕ → Shm → Host → Option (Shm × Host)
  unfolding run_label
  run_selected none hdr buf shm host = some (shm, host)
  run_selected (some l) hdr buf shm host = run_label l hdr buf shm host

  unfoldable pub process_command : CmdHeader → List ℕ → Shm → Host → Option (Shm × Host)
  unfolding select run_selected labels label_op
  process_command hdr buf shm host = run_selected (select hdr.opcode labels) hdr buf shm host
