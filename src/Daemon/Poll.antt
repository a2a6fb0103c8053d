-- ===== src/Daemon/Poll.antt =====
-- One round of the daemon's loop at the front of the command queue.
use gravity_gpu_project.Prelude.{
  ℕ, ◌+◌, ◌*◌, ◌%◌, ◌^◌, ◌≤◌, ◌<◌, ◌≡◌, refl, ap, ap₂, subst, ◌∙◌, sym, Option, none, some, List,
  ◌++◌, length, drop, load16, load32, arith, length-append, length-drop, length-take, take,
  take-drop, get_or-append, none_ne_some, true, false,
}
use mathlib.Core.Option.{some-injective}
use mathlib.Core.List.{append_assoc}
use gravity_gpu_project.Protocol.Opcode.{cmd_max}
use gravity_gpu_project.Protocol.Header.{header_size, load_header, cmd_validate}
use gravity_gpu_project.Ring.Memory.{Shm, Ring}
use gravity_gpu_project.Ring.Command.{cmd_peek, cmd_consume}
use gravity_gpu_project.Ring.Valid.{IsValid, cmd_queue}
use gravity_gpu_project.Ring.Fifo.{cmd_peek-front, cmd_consume-front}
use gravity_gpu_project.Vulkan.Calls.{Vulkan}
use gravity_gpu_project.Vulkan.State.{VkState}
use gravity_gpu_project.Commands.Host.{Host, Machine}
use gravity_gpu_project.Daemon.Dispatch.{process_command}
use gravity_gpu_project.Daemon.Loop.{Daemon, cmd_buf_size, handled, poll}
use gravity_gpu_project.Daemon.Quiet.{Kept, process_command-Kept}

-- A command as the guest sends it: at least a header, its own length in the size field, and no
-- longer than the daemon's buffer.
pub record IsFramed (cmd : List ℕ) : Type 0 where
  pub long : header_size ≤ length cmd
  pub short : length cmd ≤ cmd_buf_size
  pub framed : load32 cmd 4 ≡ length cmd

pub load16-append :
    (cmd rest : List ℕ) (i : ℕ) → i + 1 < length cmd → load16 (cmd ++ rest) i ≡ load16 cmd i
load16-append cmd rest i h =
    ap₂ (λ x y. x + 256 * y) (get_or-append cmd rest i 0 (omega arith))
      (get_or-append cmd rest (i + 1) 0 h)

pub load32-append :
    (cmd rest : List ℕ) (i : ℕ) → i + 3 < length cmd → load32 (cmd ++ rest) i ≡ load32 cmd i
load32-append cmd rest i h =
    ap₂ (λ x y. x + 65536 * y) (load16-append cmd rest i (omega arith))
      (load16-append cmd rest (i + 2) (omega arith))

-- the buffer with a command in front
abbrev pub buffered : List ℕ → List ℕ → List ℕ
buffered cmd buf = cmd ++ drop (length cmd) buf

module _ (cmd buf : List ℕ) (f : IsFramed cmd) (full : length buf ≡ cmd_buf_size) where
  pub length-buffered : length (buffered cmd buf) ≡ cmd_buf_size
  length-buffered = omega (
    arith,
    length-append cmd (drop (length cmd) buf),
    length-drop (length cmd) buf,
    f.short,
    full,
  )

  pub buffered-size : (load_header (buffered cmd buf)).size ≡ length cmd
  unfolding load_header
  buffered-size = load32-append cmd _ 4 (omega (arith, f.long)) ∙ f.framed

  pub buffered-opcode : (load_header (buffered cmd buf)).opcode ≡ load16 cmd 0
  unfolding load_header
  buffered-opcode = load16-append cmd _ 0 (omega (arith, f.long))

  buffered-valid :
      load16 cmd 0 < cmd_max
      → cmd_validate (load_header (buffered cmd buf)) (length (buffered cmd buf)) ≡ true
  unfolding cmd_validate
  buffered-valid h =
      ground (arith, length-buffered, buffered-size, buffered-opcode, f.long, f.short)

  buffered-invalid :
      cmd_max ≤ load16 cmd 0
      → cmd_validate (load_header (buffered cmd buf)) (length (buffered cmd buf)) ≡ false
  unfolding cmd_validate
  buffered-invalid h =
      ground (arith, length-buffered, buffered-size, buffered-opcode, f.long, f.short)

module _ (vulkan : Vulkan) (machine : Machine) (vk : VkState) {ring : Ring} (d : Daemon)
    (v : IsValid ring d.shm) (full : length d.cmd_buf ≡ cmd_buf_size) (cmd rest : List ℕ)
    (e : cmd_queue ring d.shm ≡ cmd ++ rest) (f : IsFramed cmd) where
  abbrev bytes : List ℕ
  bytes = buffered cmd d.cmd_buf

  peeked : cmd_peek ring d.shm d.cmd_buf ≡ (true, bytes)
  peeked = cmd_peek-front v cmd rest d.cmd_buf e f.long (omega (arith, f.short, full)) f.framed

  -- the round, when the command's opcode is known
  pub poll-known :
      load16 cmd 0 < cmd_max
      → poll vulkan machine vk ring d
        ≡ handled vulkan machine vk ring d bytes
            (process_command vulkan machine vk ring (load_header bytes) bytes d.shm d.host)
  unfolding poll
  poll-known known = rw (peeked, buffered-valid cmd d.cmd_buf f full known) refl

  handled-front :
      (r : Option (Shm × Host)) {d' : Daemon}
      → ((s : Shm) (h : Host) → r ≡ some (s, h) → Kept ring d.shm s)
      → handled vulkan machine vk ring d bytes r ≡ some d'
      → IsValid ring d'.shm
        × (cmd_queue ring d'.shm ≡ rest)
        × (length d'.cmd_buf ≡ cmd_buf_size)
        × (d'.total_cmds ≡ (d.total_cmds + 1) % 2 ^ 64)
  unfolding handled
  handled-front none kept q = absurd (none_ne_some q)
  handled-front (some (s, h)) {d'} kept q =
      let k = kept s h refl in
      let (v', front, _) = cmd_consume-front k.valid cmd rest (k.commands ∙ e) in
      let at : ◌≡◌ {A = Shm} (cmd_consume ring s (length cmd)) d'.shm =
        ap (cmd_consume ring s) (sym (buffered-size cmd d.cmd_buf f full))
        ∙ ap (λ (x : Daemon). x.shm) (some-injective _ _ q) in
      let same = some-injective _ _ q in
      (
        subst (IsValid ring) at v',
        sym (ap (cmd_queue ring) at) ∙ front,
        sym (ap (λ (x : Daemon). length x.cmd_buf) same) ∙ length-buffered cmd d.cmd_buf f full,
        sym (ap (λ (x : Daemon). x.total_cmds) same),
      )

  -- In a valid region, a round of the daemon's loop that finds a framed command at the front of
  -- the queue, of an opcode below GRAVITY_CMD_MAX and no longer than its buffer, and whose
  -- handler comes back, takes exactly that command off the queue, counts it, and leaves the
  -- region valid.
  pub poll-front :
      load16 cmd 0 < cmd_max
      → {d' : Daemon} → poll vulkan machine vk ring d ≡ some d'
      → IsValid ring d'.shm
        × (cmd_queue ring d'.shm ≡ rest)
        × (length d'.cmd_buf ≡ cmd_buf_size)
        × (d'.total_cmds ≡ (d.total_cmds + 1) % 2 ^ 64)
  poll-front known q =
      handled-front _
        (λ s h p. process_command-Kept v vulkan machine vk (load_header bytes) bytes d.host p)
        (sym (poll-known known) ∙ q)

  -- In a valid region, a round that finds a framed command, no longer than the daemon's buffer,
  -- at the front of the queue, whose opcode is GRAVITY_CMD_MAX or more, takes only the 16 bytes
  -- of a header off the queue, so whatever follows the header of that command is at the front
  -- next.
  pub poll-out_of_range :
      cmd_max ≤ load16 cmd 0
      → poll vulkan machine vk ring d
          ≡ some (record d { shm = cmd_consume ring d.shm header_size; cmd_buf = bytes })
        × (cmd_queue ring (cmd_consume ring d.shm header_size) ≡ drop header_size cmd ++ rest)
  unfolding poll
  poll-out_of_range unknown = (
    rw (peeked, buffered-invalid cmd d.cmd_buf f full unknown) refl,
    subst (λ n. cmd_queue ring (cmd_consume ring d.shm n) ≡ drop header_size cmd ++ rest)
        (length-take header_size cmd ∙ omega (arith, f.long))
        (cmd_consume-front v (take header_size cmd) (drop header_size cmd ++ rest) (
          e
          ∙ ap (λ l. l ++ rest) (sym (take-drop header_size cmd))
          ∙ append_assoc (take header_size cmd) (drop header_size cmd) rest)).1,
  )
