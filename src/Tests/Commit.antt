-- ===== src/Tests/Commit.antt =====
-- A commit of the command buffer with handle 6.
use gravity_gpu_project.Prelude.{ℕ, ◌≡◌, refl, false, some, List, [], ◌∷◌, ◌++◌, arith}
use gravity_gpu_project.Protocol.Header.{cmd_init, header_bytes, load_header}
use gravity_gpu_project.Ring.Memory.{Shm}
use gravity_gpu_project.Ring.Completion.{received, comp_read}
use gravity_gpu_project.Tracker.Resource.{of_cmdbuf}
use gravity_gpu_project.Payload.System.{load_cmdbuf_completed}
use gravity_gpu_project.Vulkan.Calls.{
  reset_fence, reset_command_buffer, wait_for_fence, queue_submit, end_command_buffer,
}
use gravity_gpu_project.Commands.Host.{Host, with_payload}
use gravity_gpu_project.Daemon.Dispatch.{process_command}
use gravity_gpu_project.Daemon.Commit.{IsAnswer, commit-answered}
use gravity_gpu_project.Tests.Vulkan.{vulkan, machine}
use gravity_gpu_project.Tests.Commands.{vk, busy, recorded, found}
use gravity_gpu_project.Tests.Guest.{ring, shm, valid, no_completions}
use gravity_gpu_project.Tests.Daemon.{zero_bytes, length-zero_bytes}

abbrev commit : List ℕ
commit = header_bytes (cmd_init 0x0501 20 5) ++ (6 ∷ 0 ∷ 0 ∷ 0 ∷ [])

commit-answered_example :
    (shm' : Shm) × (host' : Host) × (process_command vulkan machine vk ring
        (load_header commit)
        commit
        shm
        busy
      ≡ some (shm', host'))
    × (host'.log
        ≡ reset_command_buffer 21
          ∷ (reset_fence 22
              ∷ (wait_for_fence 22 ∷ (queue_submit 9 21 22 ∷ (end_command_buffer 21 ∷ [])))))
    × (host'.tracker
        ≡ with_payload busy.tracker 2 (of_cmdbuf (record recorded { recording = false })))
    × ((comp_read ring shm' (zero_bytes 32)).0 ≡ received 32)
    × IsAnswer 5 6 (load_cmdbuf_completed (comp_read ring shm' (zero_bytes 32)).1)
unfolding header_bytes cmd_init
commit-answered_example =
    commit-answered vulkan machine vk ring valid commit busy 2 recorded (zero_bytes 32) refl
      (omega arith) (omega arith) found refl refl refl no_completions (omega arith)
      (omega (arith, length-zero_bytes 32))
