-- ===== src/Guest/Ping.antt =====
-- What the daemon does with the ping of the guest's test application (guest-userspace/main.cpp).
use gravity_gpu_project.Prelude.{
  ℕ, ◌<◌, ◌≡◌, refl, ap, ◌∙◌, subst, false, Option, none, some, List, ◌++◌, length, drop, load32,
  arith, length-append, length-drop,
}
use mathlib.Core.List.{append_assoc}
use gravity_gpu_project.Protocol.Header.{header_size, load_header, cmd_validate}
use gravity_gpu_project.Ring.Memory.{Ring}
use gravity_gpu_project.Ring.Command.{cmd_consume}
use gravity_gpu_project.Ring.Valid.{IsValid, cmd_queue, comp_queue}
use gravity_gpu_project.Ring.Fifo.{cmd_peek-small, cmd_consume-front}
use gravity_gpu_project.Vulkan.Calls.{Vulkan}
use gravity_gpu_project.Vulkan.State.{VkState}
use gravity_gpu_project.Commands.Host.{Machine}
use gravity_gpu_project.Daemon.Loop.{Daemon, cmd_buf_size, poll, polls}
use gravity_gpu_project.Daemon.Poll.{load32-append, buffered}
use gravity_gpu_project.Guest.Client.{user_ping, user_header_bytes, bytes64}

-- Sixteen bytes whose size field is less than a header.
record IsUndersized (cmd : List ℕ) : Type 0 where
  long : length cmd ≡ header_size
  small : load32 cmd 4 < header_size

-- Nothing but the command queue and the buffer has changed.
record Dropped (ring : Ring) (d d' : Daemon) : Type 0 where
  valid : IsValid ring d'.shm
  completions : comp_queue ring d'.shm ≡ comp_queue ring d.shm
  host : d'.host ≡ d.host
  total : d'.total_cmds ≡ d.total_cmds
  full : length d'.cmd_buf ≡ cmd_buf_size

module _ (cmd buf : List ℕ) (u : IsUndersized cmd) (full : length buf ≡ cmd_buf_size) where
  length-bytes : length (buffered cmd buf) ≡ cmd_buf_size
  length-bytes =
      omega (
        arith,
        length-append cmd (drop (length cmd) buf),
        length-drop (length cmd) buf,
        u.long,
        full,
      )

  refused : cmd_validate (load_header (buffered cmd buf)) (length (buffered cmd buf)) ≡ false
  unfolding cmd_validate load_header
  refused =
      let size = load32-append cmd (drop (length cmd) buf) 4 (omega (arith, u.long)) in
      ground (arith, length-bytes, size, u.small)

module _ (vulkan : Vulkan) (machine : Machine) (vk : VkState) (ring : Ring) where
  poll-undersized :
      (d : Daemon) (cmd rest : List ℕ)
      → IsValid ring d.shm
      → length d.cmd_buf ≡ cmd_buf_size
      → IsUndersized cmd
      → cmd_queue ring d.shm ≡ cmd ++ rest
      → (d' : Daemon) × (poll vulkan machine vk ring d ≡ some d')
        × Dropped ring d d'
        × (cmd_queue ring d'.shm ≡ rest)
  unfolding poll
  poll-undersized d cmd rest v full u e =
      let peeked = cmd_peek-small v cmd rest d.cmd_buf e u.long (omega (arith, full)) u.small in
      let (v', front, comp) =
        subst
          (λ n.
            let shm' = cmd_consume ring d.shm n in
            IsValid ring shm'
            × (cmd_queue ring shm' ≡ rest)
            × (comp_queue ring shm' ≡ comp_queue ring d.shm))
          u.long (cmd_consume-front v cmd rest e) in
      (
        record d { shm = cmd_consume ring d.shm header_size; cmd_buf = buffered cmd d.cmd_buf },
        rw (peeked, refused cmd d.cmd_buf u full) refl,
        record {
          valid = v';
          completions = comp;
          host = refl;
          total = refl;
          full = length-bytes cmd d.cmd_buf u full;
        },
        front,
      )

  twice :
      (d d₁ d₂ : Daemon)
      → poll vulkan machine vk ring d ≡ some d₁
      → poll vulkan machine vk ring d₁ ≡ some d₂
      → polls vulkan machine vk ring 2 d ≡ some d₂
  unfolding polls
  twice d d₁ d₂ e₁ e₂ =
      ap
        (λ (r : Option Daemon). elim r [
          | none ↦ none
          | some d' ↦ polls vulkan machine vk ring 1 d'
        ])
        e₁
      ∙ ap (λ (r : Option Daemon). elim r [ none ↦ none | some d' ↦ some d' ]) e₂

  -- In a valid region whose command queue starts with the ping of the test application, whose
  -- header is not laid out like a command's, two rounds of the daemon's loop throw its 32 bytes
  -- away: no handler runs, no completion is sent and nothing is counted.
  pub ping-dropped :
      (d : Daemon) (rest : List ℕ)
      → IsValid ring d.shm
      → length d.cmd_buf ≡ cmd_buf_size
      → cmd_queue ring d.shm ≡ user_ping ++ rest
      → (d' : Daemon) × (polls vulkan machine vk ring 2 d ≡ some d')
        × IsValid ring d'.shm
        × (cmd_queue ring d'.shm ≡ rest)
        × (comp_queue ring d'.shm ≡ comp_queue ring d.shm)
        × (d'.host ≡ d.host)
        × (d'.total_cmds ≡ d.total_cmds)
  unfolding user_ping user_header_bytes bytes64
  ping-dropped d rest v full e =
      let first = user_header_bytes 0x0003 32 in
      let second = bytes64 0xdeadbeef ++ bytes64 0 in
      let (d₁, e₁, k₁, q₁) =
        poll-undersized d first (second ++ rest) v full
          (record { long = refl; small = omega arith }) (e ∙ append_assoc first second rest) in
      let (d₂, e₂, k₂, q₂) =
        poll-undersized d₁ second rest k₁.valid k₁.full
          (record { long = refl; small = omega arith }) q₁ in
      (
        d₂,
        twice d d₁ d₂ e₁ e₂,
        k₂.valid,
        q₂,
        k₂.completions ∙ k₁.completions,
        k₂.host ∙ k₁.host,
        k₂.total ∙ k₁.total,
      )
