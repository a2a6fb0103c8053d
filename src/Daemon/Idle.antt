-- ===== src/Daemon/Idle.antt =====
-- A whole run of the daemon while the guest sends no command.
use gravity_gpu_project.Prelude.{◌<◌, List, [], ◌∷◌, length}
use gravity_gpu_project.Protocol.Header.{header_size}
use gravity_gpu_project.Ring.Memory.{Memory, Shm, Ring}
use gravity_gpu_project.Ring.Valid.{IsValid, cmd_queue}
use gravity_gpu_project.Vulkan.Calls.{Vulkan}
use gravity_gpu_project.Daemon.Loop.{Daemon}

-- What the guest does between two rounds: it may write data and read completions, but it leaves the
-- region valid and no whole header in the command queue.
abbrev pub IsSilent : (Shm → Shm) → Type 0
IsSilent guest =
    (ring : Ring) (shm : Shm)
    → IsValid ring shm
    → length (cmd_queue ring shm) < header_size
    → IsValid ring (guest shm) × (length (cmd_queue ring (guest shm)) < header_size)

abbrev pub AllSilent : List (Shm → Shm) → Type 0
AllSilent [] = Unit {0}
AllSilent (guest ∷ rounds) = IsSilent guest × AllSilent rounds
