-- ===== src/Daemon/Drain.antt =====
-- The daemon's loop answers the commands that ask for an answer, each in one round.
use gravity_gpu_project.Prelude.{
  ℕ, ◌+◌, ◌%◌, ◌^◌, ◌<◌, ◌≡◌, ◌⊎◌, refl, ap, ◌∙◌, inl, inr, some, List, [], ◌∷◌, ◌++◌, length,
  load16, load32, arith, bytes16, bytes32, ◌==◌, if◌then◌else◌,
}
use gravity_gpu_project.Protocol.Opcode.{opcode, cmd_max}
use gravity_gpu_project.Protocol.Header.{cmd_init, header_bytes}
use gravity_gpu_project.Ring.Memory.{Ring}
use gravity_gpu_project.Ring.Valid.{IsValid, cmd_queue, comp_queue}
use gravity_gpu_project.Vulkan.Calls.{Vulkan}
use gravity_gpu_project.Vulkan.State.{VkState}
use gravity_gpu_project.Commands.Host.{Machine}
use gravity_gpu_project.Daemon.Dispatch.{pong_bytes, hello_response, hello_response_bytes}
use gravity_gpu_project.Daemon.Loop.{Daemon, cmd_buf_size, poll, polls}
use gravity_gpu_project.Daemon.Poll.{IsFramed, poll-front}
use gravity_gpu_project.Daemon.Answer.{offered, poll-ping, poll-hello}

-- the sixteen bytes that answer a ping: opcode, flags, size, sequence number and fence
abbrev pub pong : ℕ → List ℕ
pong sequence = bytes16 4 ++ (bytes16 0 ++ (bytes32 16 ++ (bytes32 sequence ++ bytes32 0)))

-- The bytes that answer a hello: a header, the magic, the version 0.1, the features, the limits and
-- the reserved words.
abbrev pub response : ℕ → List ℕ
response sequence =
    bytes16 1
    ++ (bytes16 0
        ++ (bytes32 56
            ++ (bytes32 sequence
                ++ (bytes32 0
                    ++ (bytes32 0x47525659
                        ++ (bytes16 0
                            ++ (bytes16 1
                                ++ (bytes32 0x5b
                                    ++ (bytes32 16384
                                        ++ (bytes32 268435456
                                            ++ (bytes32 1024
                                                ++ (bytes32 0
                                                    ++ (bytes32 0
                                                        ++ (bytes32 0 ++ bytes32 0))))))))))))))

-- a framed ping or hello
pub record IsQuestion (cmd : List ℕ) : Type 0 where
  pub framed : IsFramed cmd
  pub op : (load16 cmd 0 ≡ 3) ⊎ (load16 cmd 0 ≡ 1)

abbrev pub AllQuestions : List (List ℕ) → Type 0
AllQuestions [] = Unit {0}
AllQuestions (cmd ∷ cmds) = IsQuestion cmd × AllQuestions cmds

-- the answer that carries the question's sequence number
abbrev pub answer_to : List ℕ → List ℕ
answer_to cmd = if load16 cmd 0 == 3 then pong (load32 cmd 8) else response (load32 cmd 8)

-- A completion queue behind the answers to commands, one after another; an answer that does not fit
-- is lost.
abbrev pub answers : ℕ → List ℕ → List (List ℕ) → List ℕ
answers size queue [] = queue
answers size queue (cmd ∷ cmds) = answers size (offered size queue (answer_to cmd)) cmds

-- the bytes of commands sent one behind another
abbrev pub sent : List (List ℕ) → List ℕ
sent [] = []
sent (cmd ∷ cmds) = cmd ++ sent cmds

pong_lem : (sequence : ℕ) → pong_bytes sequence ≡ pong sequence
unfolding pong_bytes header_bytes cmd_init opcode
pong_lem sequence = refl

response_lem : (sequence : ℕ) → hello_response_bytes (hello_response sequence) ≡ response sequence
unfolding hello_response hello_response_bytes header_bytes cmd_init opcode
response_lem sequence = refl

known : (cmd : List ℕ) → IsQuestion cmd → load16 cmd 0 < cmd_max
known cmd q = elim q.op [ inl at ↦ omega (arith, at) | inr at ↦ omega (arith, at) ]

module _ (vulkan : Vulkan) (machine : Machine) (vk : VkState) {ring : Ring} where
  poll-question :
      (d : Daemon) (cmd rest : List ℕ)
      → IsValid ring d.shm
      → length d.cmd_buf ≡ cmd_buf_size
      → cmd_queue ring d.shm ≡ cmd ++ rest
      → IsQuestion cmd
      → (d' : Daemon) × (poll vulkan machine vk ring d ≡ some d')
        × (comp_queue ring d'.shm
            ≡ offered ring.comp_ring_size (comp_queue ring d.shm) (answer_to cmd))
        × (d'.host ≡ d.host)
  unfolding opcode
  poll-question d cmd rest v full e q = elim q.op [
    | inl at ↦
        let (d', step, _, done, same) =
          poll-ping vulkan machine vk ring d v full cmd rest e q.framed at in
        let reply : pong_bytes (load32 cmd 8) ≡ answer_to cmd = rw at (pong_lem (load32 cmd 8)) in
        (d', step, done ∙ ap (offered ring.comp_ring_size (comp_queue ring d.shm)) reply, same)
    | inr at ↦
        let (d', step, _, done, same) =
          poll-hello vulkan machine vk ring d v full cmd rest e q.framed at in
        let reply : hello_response_bytes (hello_response (load32 cmd 8)) ≡ answer_to cmd =
          rw at (response_lem (load32 cmd 8)) in
        (d', step, done ∙ ap (offered ring.comp_ring_size (comp_queue ring d.shm)) reply, same)
  ]

  -- In a valid region whose command queue holds some pings and hellos one behind another and
  -- nothing else, each framed and no longer than the daemon's buffer, the daemon's loop answers
  -- all of them in as many rounds and in their order: the command queue is empty then; for each
  -- ping a pong, and for each hello a response with the daemon's version, features and limits,
  -- has been offered to the completion queue with the sequence number of its command, and is lost
  -- only when it does not fit; the region is valid still, the count of commands has grown by
  -- their number, and the tracker and the Vulkan objects are as before.
  pub polls-answered :
      (cmds : List (List ℕ)) (d : Daemon)
      → IsValid ring d.shm
      → length d.cmd_buf ≡ cmd_buf_size
      → d.total_cmds < 2 ^ 64
      → cmd_queue ring d.shm ≡ sent cmds
      → AllQuestions cmds
      → (d' : Daemon) × (polls vulkan machine vk ring (length cmds) d ≡ some d')
        × IsValid ring d'.shm
        × (cmd_queue ring d'.shm ≡ [])
        × (comp_queue ring d'.shm ≡ answers ring.comp_ring_size (comp_queue ring d.shm) cmds)
        × (d'.total_cmds ≡ (d.total_cmds + length cmds) % 2 ^ 64)
        × (d'.host ≡ d.host)
  unfolding polls
  polls-answered [] d v full small e s = (d, refl, v, e, refl, omega arith, refl)
  polls-answered (cmd ∷ cmds) d v full small e (q, qs) =
      let (d₁, step, answered, same) = poll-question d cmd (sent cmds) v full e q in
      let (v₁, e₁, full₁, counted) =
        poll-front vulkan machine vk d v full cmd (sent cmds) e q.framed (known cmd q) step in
      let (d', done, v', empty, replies, total, host) =
        polls-answered cmds d₁ v₁ full₁ (omega (arith, counted)) e₁ qs in
      (
        d',
        rw (polls, step) done,
        v',
        empty,
        replies ∙ ap (λ queue. answers ring.comp_ring_size queue cmds) answered,
        omega (arith, total, counted),
        host ∙ same,
      )
