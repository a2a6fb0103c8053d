-- ===== src/Guest/Handshake.antt =====
-- The first exchange of the guest's driver and the daemon, over one region.
use mathlib.Core.Option
use mathlib.Core.Option.{some-injective}
use gravity_gpu_project.Prelude.{
  ℕ, ◌^◌, ◌≤◌, ◌<◌, ◌≡◌, refl, ap, ◌∙◌, sym, some, List, [], ◌++◌, length, drop, load16, load32,
  arith, inl, inr, Option-cases, none_ne_some,
}
use mathlib.Core.List.{append-nil}
use gravity_gpu_project.Protocol.Opcode.{opcode, CmdOp}
use gravity_gpu_project.Protocol.Header.{cmd_init, header_bytes}
use gravity_gpu_project.Ring.Memory.{Shm, Ring}
use gravity_gpu_project.Ring.Command.{cmd_write}
use gravity_gpu_project.Ring.Completion.{received, comp_read}
use gravity_gpu_project.Ring.Queue.{offer, submit}
use gravity_gpu_project.Ring.Valid.{IsValid, cmd_queue, comp_queue}
use gravity_gpu_project.Ring.Fifo.{cmd_write_refines, cmd_write-IsValid}
use gravity_gpu_project.Ring.Reply.{comp_read-front}
use gravity_gpu_project.Vulkan.Calls.{Vulkan}
use gravity_gpu_project.Vulkan.State.{VkState}
use gravity_gpu_project.Commands.Host.{Host, Machine}
use gravity_gpu_project.Daemon.Dispatch.{hello_response, hello_response_bytes}
use gravity_gpu_project.Daemon.Loop.{Daemon, cmd_buf_size, poll}
use gravity_gpu_project.Daemon.Poll.{IsFramed, poll-front}
use gravity_gpu_project.Daemon.Answer.{offered, poll-hello}
use gravity_gpu_project.Guest.Driver.{hello, hello_bytes}

hello-IsFramed : (n : ℕ) → IsFramed (hello_bytes (hello n))
unfolding hello_bytes hello header_bytes cmd_init opcode
hello-IsFramed n = record { long = omega arith; short = omega arith; framed = refl }

hello_opcode : (n : ℕ) → load16 (hello_bytes (hello n)) 0 ≡ opcode CmdOp.hello
unfolding hello_bytes hello header_bytes cmd_init opcode
hello_opcode n = refl

hello_sequence : (n : ℕ) → n < 2 ^ 32 → load32 (hello_bytes (hello n)) 8 ≡ n
unfolding hello_bytes hello header_bytes cmd_init
hello_sequence n small = omega arith

length-hello : (n : ℕ) → length (hello_bytes (hello n)) ≡ 44
unfolding hello_bytes hello header_bytes cmd_init
length-hello n = refl

length_response : (n : ℕ) → length (hello_response_bytes (hello_response n)) ≡ 56
unfolding hello_response_bytes hello_response header_bytes cmd_init
length_response n = refl

response_size : (n : ℕ) → load32 (hello_response_bytes (hello_response n)) 4 ≡ 56
unfolding hello_response_bytes hello_response header_bytes cmd_init
response_size n = refl

submit_first :
    (size : ℕ) (src : List ℕ) → length src ≡ 44 → 88 ≤ size → submit size [] src ≡ some src
unfolding submit offer
submit_first size src short room = ground arith

offered_first : (size : ℕ) (src : List ℕ) → length src ≡ 56 → 56 < size → offered size [] src ≡ src
unfolding offer
offered_first size src short room = ground arith

-- into an empty command queue
hello_sent :
    {ring : Ring} {shm : Shm} (v : IsValid ring shm) (n : ℕ)
    → cmd_queue ring shm ≡ []
    → 88 ≤ ring.cmd_ring_size
    → (shm' : Shm) × (cmd_write ring shm (hello_bytes (hello n)) ≡ some shm')
      × (cmd_queue ring shm' ≡ hello_bytes (hello n))
hello_sent {ring} {shm} v n quiet room =
    let src = hello_bytes (hello n) in
    let promised : Option.map (cmd_queue ring) (cmd_write ring shm src) ≡ some src =
      cmd_write_refines v src
      ∙ ap (λ q. submit ring.cmd_ring_size q src) quiet
      ∙ submit_first ring.cmd_ring_size src (length-hello n) room in
    elim (Option-cases (cmd_write ring shm src)) [
      | inl e ↦ absurd (none_ne_some (sym (ap (Option.map (cmd_queue ring)) e) ∙ promised))
      | inr (shm', e) ↦
          (shm', e, some-injective _ _ (sym (ap (Option.map (cmd_queue ring)) e) ∙ promised))
    ]

-- In a valid region with both queues empty, with a command ring of at least 88 bytes and a
-- completion ring of more than 56: the hello that the driver sends is accepted, one round of the
-- daemon's loop answers it, and the driver's read gives exactly the response with the hello's
-- sequence number.
pub handshake :
    (vulkan : Vulkan) (machine : Machine) (vk : VkState) (ring : Ring) {shm : Shm}
    (v : IsValid ring shm) (n : ℕ) (host : Host) (cmd_buf buf : List ℕ)
    → n < 2 ^ 32
    → cmd_queue ring shm ≡ []
    → comp_queue ring shm ≡ []
    → 88 ≤ ring.cmd_ring_size
    → 56 < ring.comp_ring_size
    → length cmd_buf ≡ cmd_buf_size
    → 56 ≤ length buf
    → (shm₁ : Shm) × (d : Daemon) × (cmd_write ring shm (hello_bytes (hello n)) ≡ some shm₁)
      × (poll vulkan machine vk ring
            (record { shm = shm₁; host = host; cmd_buf = cmd_buf; total_cmds = 0 })
          ≡ some d)
      × ((comp_read ring d.shm buf).0 ≡ received 56)
      × ((comp_read ring d.shm buf).1 ≡ hello_response_bytes (hello_response n) ++ drop 56 buf)
unfolding opcode
handshake vulkan machine vk ring v n host cmd_buf buf small cq rq room comp_room full fits =
    let src = hello_bytes (hello n) in
    let (shm₁, sent, queued) = hello_sent v n cq room in
    let (v₁, unread, _) = cmd_write-IsValid v src sent in
    let d₁ : Daemon = record { shm = shm₁; host = host; cmd_buf = cmd_buf; total_cmds = 0 } in
    let e₁ = queued ∙ sym (append-nil src) in
    let f = hello-IsFramed n in
    let (d, step, _, answered, _) =
      poll-hello vulkan machine vk ring d₁ v₁ full src [] e₁ f (hello_opcode n) in
    let (v₂, _, _, _) =
      poll-front vulkan machine vk d₁ v₁ full src [] e₁ f (omega (arith, hello_opcode n)) step in
    let answer = hello_response_bytes (hello_response n) in
    let waiting : comp_queue ring d.shm ≡ answer ++ [] =
      answered
      ∙ ap
          (λ s.
            offered ring.comp_ring_size (comp_queue ring shm₁)
              (hello_response_bytes (hello_response s)))
          (hello_sequence n small)
      ∙ ap (λ q. offered ring.comp_ring_size q answer) (unread ∙ rq)
      ∙ offered_first ring.comp_ring_size answer (length_response n) comp_room
      ∙ sym (append-nil answer) in
    let (got, bytes, _, _, _) =
      comp_read-front v₂ answer [] buf waiting (omega (arith, length_response n))
        (omega (arith, length_response n, fits)) (response_size n ∙ sym (length_response n)) in
    (
      shm₁,
      d,
      sent,
      step,
      got ∙ ap received (length_response n),
      bytes ∙ ap (λ k. answer ++ drop k buf) (length_response n),
    )
