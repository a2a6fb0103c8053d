-- ===== src/Daemon/Answer.antt =====
-- The completions that the daemon sends, as what they append to the completion queue.
use mathlib.Core.Option
use gravity_gpu_project.Prelude.{
  ℕ, ◌≡◌, refl, length, load16, load32, ◌<◌, ap, subst, ◌∙◌, Option, none, some, List, ◌++◌, arith,
}
use gravity_gpu_project.Protocol.Opcode.{opcode, CmdOp, cmd_max}
use gravity_gpu_project.Protocol.Header.{CmdHeader, load_header}
use gravity_gpu_project.Ring.Memory.{Shm, Ring}
use gravity_gpu_project.Ring.Completion.{comp_write}
use gravity_gpu_project.Ring.Queue.{offer}
use gravity_gpu_project.Ring.Valid.{IsValid, cmd_queue, comp_queue}
use gravity_gpu_project.Ring.Reply.{comp_write_refines}
use gravity_gpu_project.Vulkan.Calls.{Vulkan}
use gravity_gpu_project.Vulkan.State.{VkState}
use gravity_gpu_project.Commands.Host.{Host, Machine, send}
use gravity_gpu_project.Ring.Command.{cmd_consume}
use gravity_gpu_project.Commands.Render.{
  begins, ends, viewport, scissor, vertex_buffer, draws, draws_indexed, draws_instanced, render_op,
}
use gravity_gpu_project.Daemon.Loop.{Daemon, cmd_buf_size, handled, poll}
use gravity_gpu_project.Daemon.Poll.{
  IsFramed, buffered, buffered-opcode, poll-known, poll-front, load32-append,
}
use gravity_gpu_project.Daemon.Dispatch.{
  Label, label_op, labels, select, run_label, run_selected, process_command, pong_bytes,
  hello_response, hello_response_bytes,
}

-- a bounded queue of `size - 1` bytes offered some bytes, which it drops when they do not fit
abbrev pub offered : ℕ → List ℕ → List ℕ → List ℕ
offered size queue bytes = elim (offer size queue bytes) [ none ↦ queue | some q ↦ q ]

kept_or :
    (o : Option Shm) (shm : Shm) (queue : Shm → List ℕ) {answer : Option (List ℕ)}
    → Option.map queue o ≡ answer
    → queue (elim o [ none ↦ shm | some shm' ↦ shm' ])
      ≡ elim answer [ none ↦ queue shm | some q ↦ q ]
kept_or none shm queue e = subst (λ x. queue shm ≡ elim x [ none ↦ queue shm | some q ↦ q ]) e refl
kept_or (some shm') shm queue e =
    subst (λ x. queue shm' ≡ elim x [ none ↦ queue shm | some q ↦ q ]) e refl

-- In a valid region, a completion whose result is ignored is appended to the completion queue when
-- it fits, and is lost when it does not.
pub send-offered :
    {ring : Ring} {shm : Shm}
    → IsValid ring shm
    → (bytes : List ℕ)
    → comp_queue ring (send ring shm bytes)
      ≡ offered ring.comp_ring_size (comp_queue ring shm) bytes
unfolding send
send-offered {ring} {shm} v bytes =
    kept_or (comp_write ring shm bytes) shm (comp_queue ring) (comp_write_refines v bytes)

-- Each label of the switch is selected by its own opcode.
pub select-label_op : (l : Label) → select (opcode (label_op l)) labels ≡ some l
unfolding select labels label_op opcode render_op
select-label_op Label.hello = refl
select-label_op Label.ping = refl
select-label_op Label.create_buffer = refl
select-label_op Label.destroy_buffer = refl
select-label_op Label.create_texture = refl
select-label_op Label.destroy_texture = refl
select-label_op Label.create_sampler = refl
select-label_op Label.destroy_sampler = refl
select-label_op Label.create_shader = refl
select-label_op Label.create_render_pipeline = refl
select-label_op Label.create_depth_stencil = refl
select-label_op Label.cmdbuf_create = refl
select-label_op Label.cmdbuf_commit = refl
select-label_op (Label.render begins) = refl
select-label_op (Label.render ends) = refl
select-label_op (Label.render viewport) = refl
select-label_op (Label.render scissor) = refl
select-label_op (Label.render vertex_buffer) = refl
select-label_op (Label.render draws) = refl
select-label_op (Label.render draws_indexed) = refl
select-label_op (Label.render draws_instanced) = refl

module _ (vulkan : Vulkan) (machine : Machine) (vk : VkState) (ring : Ring) where
  pub process_command-label :
      (l : Label) (hdr : CmdHeader) (buf : List ℕ) (shm : Shm) (host : Host)
      → hdr.opcode ≡ opcode (label_op l)
      → process_command vulkan machine vk ring hdr buf shm host
        ≡ run_label vulkan machine vk ring l hdr buf shm host
  unfolding process_command run_selected
  process_command-label l hdr buf shm host e =
      ap (λ found. run_selected vulkan machine vk ring found hdr buf shm host)
        (ap (λ n. select n labels) e ∙ select-label_op l)

  module _ (d : Daemon) (v : IsValid ring d.shm) (full : length d.cmd_buf ≡ cmd_buf_size)
      (cmd rest : List ℕ) (e : cmd_queue ring d.shm ≡ cmd ++ rest) (f : IsFramed cmd) where
    abbrev bytes : List ℕ
    bytes = buffered cmd d.cmd_buf

    -- a round at a command that is answered
    answered :
        (l : Label) (answer : List ℕ)
        → load16 cmd 0 ≡ opcode (label_op l)
        → opcode (label_op l) < cmd_max
        → run_label vulkan machine vk ring l (load_header bytes) bytes d.shm d.host
          ≡ some (send ring d.shm answer, d.host)
        → (d' : Daemon) × (poll vulkan machine vk ring d ≡ some d')
          × (cmd_queue ring d'.shm ≡ rest)
          × (comp_queue ring d'.shm ≡ offered ring.comp_ring_size (comp_queue ring d.shm) answer)
          × (d'.host ≡ d.host)
    unfolding handled cmd_consume
    answered l answer at known done =
        let run =
          process_command-label l (load_header bytes) bytes d.shm d.host
            (buffered-opcode cmd d.cmd_buf f full ∙ at)
          ∙ done in
        let small : load16 cmd 0 < cmd_max = omega (arith, at, known) in
        let step =
          poll-known vulkan machine vk d v full cmd rest e f small
          ∙ ap (handled vulkan machine vk ring d bytes) run in
        (
          _,
          step,
          (poll-front vulkan machine vk d v full cmd rest e f small step).1,
          send-offered v answer,
          refl,
        )

    -- In a valid region, a round of the daemon's loop that finds a ping at the front of the queue
    -- takes it off and offers the completion queue a pong with the ping's sequence number, which
    -- is lost when it does not fit; the tracker and the Vulkan objects stay as they are.
    pub poll-ping :
        load16 cmd 0 ≡ opcode CmdOp.ping
        → (d' : Daemon) × (poll vulkan machine vk ring d ≡ some d')
          × (cmd_queue ring d'.shm ≡ rest)
          × (comp_queue ring d'.shm
              ≡ offered ring.comp_ring_size (comp_queue ring d.shm) (pong_bytes (load32 cmd 8)))
          × (d'.host ≡ d.host)
    unfolding label_op opcode run_label load_header
    poll-ping at = answered Label.ping (pong_bytes (load32 cmd 8)) at (omega arith) (
        ap (λ n. some (send ring d.shm (pong_bytes n), d.host))
          (load32-append cmd _ 8 (omega (arith, f.long))))

    -- In a valid region, a round of the daemon's loop that finds a hello at the front of the queue
    -- takes it off and offers the completion queue the daemon's response with the hello's sequence
    -- number, which is lost when it does not fit, whatever version and magic the guest has sent; the
    -- tracker and the Vulkan objects stay as they are.
    pub poll-hello :
        load16 cmd 0 ≡ opcode CmdOp.hello
        → (d' : Daemon) × (poll vulkan machine vk ring d ≡ some d')
          × (cmd_queue ring d'.shm ≡ rest)
          × (comp_queue ring d'.shm
              ≡ offered ring.comp_ring_size
                  (comp_queue ring d.shm)
                  (hello_response_bytes (hello_response (load32 cmd 8))))
          × (d'.host ≡ d.host)
    unfolding label_op opcode run_label load_header
    poll-hello at =
        answered Label.hello (hello_response_bytes (hello_response (load32 cmd 8))) at (omega arith)
          (ap (λ n. some (send ring d.shm (hello_response_bytes (hello_response n)), d.host))
            (load32-append cmd _ 8 (omega (arith, f.long))))
