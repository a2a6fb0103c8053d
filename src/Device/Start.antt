-- ===== src/Device/Start.antt =====
-- What a device shows after `gravity_gpu_realize` and after `gravity_gpu_reset`.
use gravity_gpu_project.Prelude.{
  u64_mod, ℕ, ◌*◌, ◌%◌, ◌^◌, ◌≤◌, ◌<◌, ◌≡◌, refl, some, true, arith, u32, ap, ◌∙◌,
}
use gravity_gpu_project.Ring.Memory.{Memory, Shm, Ring}
use gravity_gpu_project.Ring.Setup.{done, failed}
use gravity_gpu_project.Ring.Rounding.{power_RoundsTo}
use gravity_gpu_project.Ring.Layout.{data_start, IsReady, init_host-IsReady}
use gravity_gpu_project.Ring.Limits.{init_host-failed}
use gravity_gpu_project.Device.State.{Device, default_cmd_ring_size, default_comp_ring_size}
use gravity_gpu_project.Device.Lifecycle.{
  Os, realized, refused, ring_failed, realize, reset, reset_ring, cleared, init_ring, sized, set_up,
  closed, ring_fuel,
}

cut : (mb : ℕ) → mb < 4096 → u32 (mb * 1024 * 1024) ≡ mb * 1024 * 1024
cut mb h = omega arith

tight : (mb : ℕ) → mb % 4096 < 5 → u32 (mb * 1024 * 1024) ≤ data_start 22 18
tight mb h = omega arith

-- The ring that the device lays out in `mb` megabytes: 4 MB of commands and 256 KB of completions.
module _ (m : Memory) (mb : ℕ) where
  init_ring-IsReady :
      5 ≤ mb
      → mb < 4096
      → (shm : Shm) × (ring : Ring) × (init_ring m (mb * 1024 * 1024) ≡ done shm)
        × IsReady (mb * 1024 * 1024) 22 18 shm ring
  unfolding init_ring
  init_ring-IsReady lo hi = rw (cut mb hi) (
      init_host-IsReady ring_fuel m (mb * 1024 * 1024) default_cmd_ring_size default_comp_ring_size
        22 18 (omega arith) (power_RoundsTo 22) (omega arith) (power_RoundsTo 18) (omega arith)
        (omega arith) (omega arith))

  init_ring-failed : mb % 4096 < 5 → init_ring m (mb * 1024 * 1024) ≡ failed
  unfolding init_ring
  init_ring-failed h =
      init_host-failed ring_fuel m (u32 (mb * 1024 * 1024)) default_cmd_ring_size
        default_comp_ring_size 22 18 (omega arith) (power_RoundsTo 22) (omega arith)
        (power_RoundsTo 18) (omega arith) (tight mb h)

-- what the operating system answers when all goes well
pub record Grants (os : Os) (fd : ℕ) (m : Memory) : Type 0 where
  pub opens : os.shm_open ≡ some fd
  pub truncates : (size : ℕ) → os.ftruncate fd size ≡ true
  pub maps : (size : ℕ) → os.mmap fd size ≡ some m

-- the size that the device computes
abbrev megabytes : Device → ℕ
megabytes d = (sized d).hostmem_mb

fits : (mb : ℕ) → mb < 2 ^ 32 → mb * 1024 * 1024 % u64_mod ≡ mb * 1024 * 1024
fits mb h = omega arith

sized_size : (d : Device) → megabytes d < 2 ^ 32 → (sized d).shmem_size ≡ megabytes d * 1024 * 1024
unfolding sized
sized_size d h = fits _ h

module _ (os : Os) (d : Device) (fd : ℕ) (m : Memory) (g : Grants os fd m)
    (small : megabytes d < 2 ^ 32) where
  -- When the operating system grants all calls and the device has from 5 to 4095 megabytes,
  -- `gravity_gpu_realize` succeeds with the region attached at that size and a ring that is
  -- ready: 4 MB of commands, 256 KB of completions, both empty, and the data region up to the
  -- end.
  pub realize-IsReady :
      5 ≤ megabytes d
      → megabytes d < 4096
      → (shm : Shm) × (ring : Ring) × (realize os d ≡ realized (set_up (sized d) fd shm))
        × IsReady (megabytes d * 1024 * 1024) 22 18 shm ring
  unfolding realize
  realize-IsReady lo hi =
      let (shm, ring, made, ready) = init_ring-IsReady m (megabytes d) lo hi in
      let at_size : init_ring m (sized d).shmem_size ≡ done shm =
        ap (init_ring m) (sized_size d small) ∙ made in
      (shm, ring, rw (g.opens, g.truncates, g.maps, at_size) refl, ready)

  -- When the operating system grants all calls but the device has a number of megabytes below
  -- 2^32 that is less than 5 above a multiple of 4096, `gravity_gpu_realize` fails at the ring,
  -- with the region closed, since the size is cut to 32 bits.
  pub realize-ring_failed :
      megabytes d % 4096 < 5 → realize os d ≡ refused ring_failed (closed (sized d))
  unfolding realize
  realize-ring_failed tight =
      let at_size : init_ring m (sized d).shmem_size ≡ failed =
        ap (init_ring m) (sized_size d small) ∙ init_ring-failed m (megabytes d) tight in
      rw (g.opens, g.truncates, g.maps, at_size) refl

reset_ring-done :
    (shm : Shm) (size : ℕ) (s : Device) {shm' : Shm}
    → init_ring shm.byte size ≡ done shm'
    → reset_ring (some shm) size s ≡ record s { shmem_ptr = some shm' }
unfolding reset_ring
reset_ring-done shm size s e = rw (e, reset_ring) refl

-- Resetting a device with a mapped region of from 5 to 4095 megabytes makes the ring ready again
-- and clears the pending interrupts, but leaves the interrupt line and the interrupt mask as they
-- were.
pub reset-IsReady :
    (d : Device) (shm : Shm) (mb : ℕ)
    → d.shmem_ptr ≡ some shm
    → d.shmem_size ≡ mb * 1024 * 1024
    → 5 ≤ mb
    → mb < 4096
    → (shm' : Shm) × (ring : Ring) × ((reset d).shmem_ptr ≡ some shm')
      × IsReady (mb * 1024 * 1024) 22 18 shm' ring
      × ((reset d).irq_status ≡ 0)
      × ((reset d).irq_line ≡ d.irq_line)
      × ((reset d).irq_mask ≡ d.irq_mask)
unfolding reset cleared
reset-IsReady d shm mb mapped size lo hi =
    let (shm', ring, made, ready) = init_ring-IsReady shm.byte mb lo hi in
    let at_size : init_ring shm.byte d.shmem_size ≡ done shm' =
      ap (init_ring shm.byte) size ∙ made in
    let after : reset d ≡ record (cleared d) { shmem_ptr = some shm' } =
      ap (λ p. reset_ring p d.shmem_size (cleared d)) mapped
      ∙ reset_ring-done shm d.shmem_size (cleared d) at_size in
    (
      shm',
      ring,
      ap (λ (s : Device). s.shmem_ptr) after,
      ready,
      ap (λ (s : Device). s.irq_status) after,
      ap (λ (s : Device). s.irq_line) after,
      ap (λ (s : Device). s.irq_mask) after,
    )
