-- ===== src/Daemon/Ready.antt =====
-- What the start of the daemon leads to.
use gravity_gpu_project.Prelude.{ℕ, ◌*◌, ◌%◌, ◌≤◌, ◌<◌, ◌≡◌, ap, ◌∙◌, true, some, arith, u32}
use gravity_gpu_project.Ring.Memory.{Memory, Shm, Ring}
use gravity_gpu_project.Ring.Setup.{init_host}
use gravity_gpu_project.Ring.Rounding.{power_RoundsTo}
use gravity_gpu_project.Ring.Layout.{data_start, IsReady, init_host-IsReady}
use gravity_gpu_project.Ring.Limits.{init_host-failed}
use gravity_gpu_project.Vulkan.Calls.{Vulkan, Log}
use gravity_gpu_project.Vulkan.Init.{Platform, Session, vk_init}
use gravity_gpu_project.Daemon.Start.{
  Config, Posix, open_shared_memory, start, region_mapped, ring_made, ring_attached, vk_started,
  running, exited, ring_fuel,
}

cut : (mb : ℕ) → mb < 4096 → u32 (mb * 1024 * 1024) ≡ mb * 1024 * 1024
cut mb h = omega arith

tight : (mb : ℕ) → mb % 4096 < 5 → u32 (mb * 1024 * 1024) ≤ data_start 22 18
tight mb h = omega arith

module _ (vulkan : Vulkan) (platform : Platform) (cfg : Config) (log : Log) (os : Posix)
    (m : Memory) (mapped : open_shared_memory os cfg ≡ some m) (mb : ℕ)
    (size : cfg.shmem_size ≡ mb * 1024 * 1024) where
  -- Where the region can be mapped, has from 5 to 4095 megabytes and Vulkan starts, the daemon
  -- comes to its loop with a ring that is ready in all of the region: both queues are empty,
  -- whatever the region held before.
  pub start-IsReady :
      5 ≤ mb
      → mb < 4096
      → {session : Session} → vk_init vulkan platform cfg.validation log ≡ (true, session)
      → (shm : Shm) × (ring : Ring) × (start vulkan platform cfg log os ≡ running ring shm session)
        × IsReady (mb * 1024 * 1024) 22 18 shm ring
  unfolding start region_mapped ring_made ring_attached vk_started
  start-IsReady lo hi up =
      let (shm, ring, made, ready) =
        init_host-IsReady ring_fuel m (mb * 1024 * 1024) (4 * 1024 * 1024) (256 * 1024) 22 18
          (omega arith) (power_RoundsTo 22) (omega arith) (power_RoundsTo 18) (omega arith)
          (omega arith) (omega arith) in
      (
        shm,
        ring,
        ap (region_mapped vulkan platform cfg log) mapped
            ∙ ap
                (λ n.
                  ring_made vulkan platform cfg log
                    (init_host ring_fuel m n (4 * 1024 * 1024) (256 * 1024)))
                (ap u32 size ∙ cut mb hi)
            ∙ ap (ring_made vulkan platform cfg log) made
            ∙ ap (ring_attached vulkan platform cfg log shm) ready.attaches
            ∙ ap (vk_started vulkan platform cfg log ring shm) up,
        ready,
      )

  -- Where the region can be mapped but its number of megabytes is less than 5 above a multiple of
  -- 4096, the daemon exits, since the size is cut to 32 bits.
  pub start-exits : mb % 4096 < 5 → start vulkan platform cfg log os ≡ exited log
  unfolding start region_mapped ring_made
  start-exits h =
      ap (region_mapped vulkan platform cfg log) mapped
      ∙ ap (ring_made vulkan platform cfg log) (
          init_host-failed ring_fuel m (u32 cfg.shmem_size) (4 * 1024 * 1024) (256 * 1024) 22 18
            (omega arith) (power_RoundsTo 22) (omega arith) (power_RoundsTo 18) (omega arith)
            (omega (arith, size, tight mb h)))
