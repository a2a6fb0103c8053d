-- ===== src/Daemon/Loop.antt =====
-- `command_loop` of host-daemon/src/main.c.
use gravity_gpu_project.Prelude.{
  ℕ, zero, suc, ◌+◌, ◌*◌, ◌%◌, ◌^◌, Option, none, some, List, if◌then◌else◌, length,
}
use gravity_gpu_project.Protocol.Header.{header_size, load_header, cmd_validate}
use gravity_gpu_project.Ring.Memory.{Shm, Ring}
use gravity_gpu_project.Ring.Command.{cmd_peek, cmd_consume}
use gravity_gpu_project.Vulkan.Calls.{Vulkan}
use gravity_gpu_project.Vulkan.State.{VkState}
use gravity_gpu_project.Commands.Host.{Host, Machine}
use gravity_gpu_project.Daemon.Dispatch.{process_command}

-- `sizeof(cmd_buf)`
abbrev pub cmd_buf_size : ℕ
cmd_buf_size = 64 * 1024

-- `cmd_buf` keeps what the commands before left in it
pub record Daemon : Type 0 where
  pub shm : Shm
  pub host : Host
  pub cmd_buf : List ℕ
  pub total_cmds : ℕ

module _ (vulkan : Vulkan) (machine : Machine) (vk : VkState) (ring : Ring) where
  -- with the command in the buffer, and what its handler did
  unfoldable pub handled : Daemon → List ℕ → Option (Shm × Host) → Option Daemon
  handled d buf none = none
  handled d buf (some (shm, host)) = some (record {
    shm = cmd_consume ring shm (load_header buf).size;
    host = host;
    cmd_buf = buf;
    total_cmds = (d.total_cmds + 1) % 2 ^ 64;
  })

  -- One round of the loop; `none` stands for a handler that does not come back.
  unfoldable pub poll : Daemon → Option Daemon
  unfolding handled
  poll d =
      let (found, buf) = cmd_peek ring d.shm d.cmd_buf in
      let hdr = load_header buf in
      let waiting = record d { cmd_buf = buf } in
      if found
      then (if cmd_validate hdr (length buf)
          then handled d buf (process_command vulkan machine vk ring hdr buf d.shm d.host)
          else some (record waiting { shm = cmd_consume ring d.shm header_size }))
      else some waiting

  -- the rounds made before `g_running` is cleared
  unfoldable pub polls : ℕ → Daemon → Option Daemon
  polls zero d = some d
  polls (suc n) d = elim (poll d) [ none ↦ none | some d' ↦ polls n d' ]
