-- ===== src/Tests/Guest.antt =====
-- A guest and a daemon over a region with two empty rings of 128 bytes.
use gravity_gpu_project.Prelude.{ℕ, ◌≤◌, ◌<◌, ◌≡◌, refl, [], ◌++◌, some, length, drop, arith}
use gravity_gpu_project.Ring.Memory.{Ring, Shm, copy_in}
use gravity_gpu_project.Ring.Setup.{fresh_header}
use gravity_gpu_project.Ring.Command.{cmd_write}
use gravity_gpu_project.Ring.Completion.{comp_read, received}
use gravity_gpu_project.Ring.Channel.{IsChannel}
use gravity_gpu_project.Ring.Valid.{IsValid, cmd_queue, comp_queue}
use gravity_gpu_project.Vulkan.Init.{zeroed_state}
use gravity_gpu_project.Daemon.Dispatch.{hello_response, hello_response_bytes}
use gravity_gpu_project.Daemon.Loop.{Daemon, cmd_buf_size, poll, polls}
use gravity_gpu_project.Guest.Driver.{hello, hello_bytes}
use gravity_gpu_project.Guest.Handshake.{handshake}
use gravity_gpu_project.Guest.Client.{user_ping, user_header_bytes, bytes64}
use gravity_gpu_project.Guest.Ping.{ping-dropped}
use gravity_gpu_project.Tests.Vulkan.{vulkan, machine}
use gravity_gpu_project.Tests.Daemon.{zero_bytes, length-zero_bytes, host}

abbrev pub ring : Ring
ring = record {
  cmd_ring = 64;
  comp_ring = 192;
  data_region = 320;
  cmd_ring_size = 128;
  cmd_ring_mask = 127;
  comp_ring_size = 128;
  comp_ring_mask = 127;
  data_region_size = 64;
  data_alloc_offset = 0;
}

abbrev pub shm : Shm
shm = record { header = fresh_header 384 128 128; byte = λ a. 0 }

channel : (tail : ℕ) → tail < 128 → IsChannel 128 127 0 tail
channel tail within = record {
  width = 7;
  narrow = omega arith;
  size_eq = refl;
  mask_eq = refl;
  head_in = omega arith;
  tail_in = omega arith;
}

pub valid : IsValid ring shm
unfolding fresh_header
valid = record {
  cmd = channel 0 (omega arith);
  comp = channel 0 (omega arith);
  cmd_before_comp = omega arith;
  comp_before_data = omega arith;
}

no_commands : cmd_queue ring shm ≡ []
unfolding fresh_header
no_commands = refl

pub no_completions : comp_queue ring shm ≡ []
unfolding fresh_header
no_completions = refl

fits : (n : ℕ) → 56 ≤ n → 56 ≤ length (zero_bytes n)
fits n h = omega (arith, length-zero_bytes n)

handshake_example :
    (shm₁ : Shm) × (d : Daemon) × (cmd_write ring shm (hello_bytes (hello 1)) ≡ some shm₁)
    × (poll vulkan machine zeroed_state ring
          (record { shm = shm₁; host = host; cmd_buf = zero_bytes cmd_buf_size; total_cmds = 0 })
        ≡ some d)
    × ((comp_read ring d.shm (zero_bytes 256)).0 ≡ received 56)
    × ((comp_read ring d.shm (zero_bytes 256)).1
        ≡ hello_response_bytes (hello_response 1) ++ drop 56 (zero_bytes 256))
handshake_example =
    handshake vulkan machine zeroed_state ring valid 1 host (zero_bytes cmd_buf_size)
      (zero_bytes 256) (omega arith) no_commands no_completions (omega arith) (omega arith)
      (length-zero_bytes cmd_buf_size) (fits 256 (omega arith))

-- the region with the ping of the test application
abbrev pinged : Shm
pinged = record {
  header = record (fresh_header 320 128 128) { cmd_tail = 32 };
  byte = copy_in 64 127 0 0 user_ping (λ a. 0);
}

pinged-IsValid : IsValid ring pinged
unfolding fresh_header
pinged-IsValid = record {
  cmd = channel 32 (omega arith);
  comp = channel 0 (omega arith);
  cmd_before_comp = omega arith;
  comp_before_data = omega arith;
}

ping_waits : cmd_queue ring pinged ≡ user_ping ++ []
unfolding copy_in fresh_header user_ping user_header_bytes bytes64
ping_waits = refl

abbrev daemon : Daemon
daemon = record { shm = pinged; host = host; cmd_buf = zero_bytes cmd_buf_size; total_cmds = 0 }

ping-dropped_example :
    (d : Daemon) × (polls vulkan machine zeroed_state ring 2 daemon ≡ some d)
    × IsValid ring d.shm
    × (cmd_queue ring d.shm ≡ [])
    × (comp_queue ring d.shm ≡ comp_queue ring pinged)
    × (d.host ≡ host)
    × (d.total_cmds ≡ 0)
ping-dropped_example =
    ping-dropped vulkan machine zeroed_state ring daemon [] pinged-IsValid
      (length-zero_bytes cmd_buf_size) ping_waits
