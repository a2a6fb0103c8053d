-- ===== src/Daemon/Main.antt =====
-- `main` of host-daemon/src/main.c, from its options to its exit status.
use gravity_gpu_project.Prelude.{ℕ, ◌≡◌, ◌<◌, refl, ap, Option, none, some, List, [], ◌∷◌, length}
use gravity_gpu_project.Protocol.Header.{header_size}
use gravity_gpu_project.Ring.Memory.{Shm, Ring}
use gravity_gpu_project.Ring.Valid.{IsValid, cmd_queue}
use gravity_gpu_project.Ring.Fifo.{cmd_peek-short}
use gravity_gpu_project.Tracker.Resource.{ResourceType}
use gravity_gpu_project.Tracker.Table.{init, destroy}
use gravity_gpu_project.Vulkan.Calls.{Vulkan, Log}
use gravity_gpu_project.Vulkan.State.{VkState}
use gravity_gpu_project.Vulkan.Init.{Platform, Session}
use gravity_gpu_project.Vulkan.Destroy.{vk_destroy}
use gravity_gpu_project.Commands.Host.{Machine}
use gravity_gpu_project.Daemon.Loop.{Daemon, poll}
use gravity_gpu_project.Daemon.Start.{
  config_defaults, Opt, Parsed, configured, exits, parse_options, Posix, Started, running, exited,
  stuck, start,
}

-- How `main` ends: with an exit status, the handles and types of the entries that are still in use
-- and the calls of Vulkan; in a handler that does not come back; or never.
pub data Ended : Type 0 where
  returned : ℕ → List (ℕ × ResourceType) → Log → Ended
  no_return never : Ended

-- the loop's first state, with what the stack holds where the buffer is
unfoldable pub entered : List ℕ → Shm → Session → Daemon
entered stack shm s = record {
  shm = shm;
  host = record { tracker = init; log = s.log };
  cmd_buf = stack;
  total_cmds = 0;
}

module _ (vulkan : Vulkan) (machine : Machine) (platform : Platform) where
  -- The loop until `g_running` is cleared: a round for each element, before which the guest does
  -- what the element says to the region.
  unfoldable pub serve : VkState → Ring → List (Shm → Shm) → Daemon → Option Daemon
  serve vk ring [] d = some d
  serve vk ring (guest ∷ rounds) d =
      elim (poll vulkan machine vk ring (record d { shm = guest d.shm })) [
        | none ↦ none
        | some d' ↦ serve vk ring rounds d'
      ]

  -- behind the loop: the tracker and the device are destroyed
  unfoldable pub ended : VkState → Option Daemon → Ended
  ended vk none = no_return
  ended vk (some d) =
      returned 0 (destroy d.host.tracker).0
        (vk_destroy platform (record { state = vk; log = d.host.log })).log

  unfoldable pub looped : List ℕ → List (Shm → Shm) → Started → Ended
  unfolding serve ended entered
  looped stack rounds (running ring shm s) =
      ended s.state (serve s.state ring rounds (entered stack shm s))
  looped stack rounds (exited log) = returned 1 [] log
  looped stack rounds stuck = never

  unfoldable pub with_options : Posix → List ℕ → List (Shm → Shm) → Parsed → Ended
  unfolding looped
  with_options os stack rounds (exits status) = returned status [] []
  with_options os stack rounds (configured cfg) =
      looped stack rounds (start vulkan platform cfg [] os)

  -- `path` is the name of the default object of shared memory
  unfoldable pub main : ℕ → Posix → List ℕ → List Opt → List (Shm → Shm) → Ended
  unfolding with_options
  main path os stack opts rounds =
      with_options os stack rounds (parse_options opts (config_defaults path))

  pub serve-step :
      (vk : VkState) (ring : Ring) (guest : Shm → Shm) (rounds : List (Shm → Shm)) (d d' : Daemon)
      → poll vulkan machine vk ring (record d { shm = guest d.shm }) ≡ some d'
      → serve vk ring (guest ∷ rounds) d ≡ serve vk ring rounds d'
  unfolding serve
  serve-step vk ring guest rounds d d' e =
      ap (λ (r : Option Daemon). elim r [ none ↦ none | some d'' ↦ serve vk ring rounds d'' ]) e

  -- With less than a header in the command queue a round does nothing.
  pub poll-idle :
      (vk : VkState) (ring : Ring) (d : Daemon)
      → IsValid ring d.shm
      → length (cmd_queue ring d.shm) < header_size
      → poll vulkan machine vk ring d ≡ some d
  unfolding poll
  poll-idle vk ring d v short = rw (cmd_peek-short v d.cmd_buf short) refl
