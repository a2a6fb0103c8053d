-- ===== src/Ring/Valid.antt =====
-- What a region that the host has laid out satisfies: two channels and the data region, apart.
use native.Mathlib.Nat.{mod-lt, one-le-pow}
use gravity_gpu_project.Prelude.{◌⊎◌, ℕ, ◌+◌, ◌^◌, ◌≤◌, ◌<◌, ◌≡◌, List, arith, sub32}
use gravity_gpu_project.Prelude.Mod.{le_of_pow}
use gravity_gpu_project.Ring.Memory.{Memory, Shm, Ring, copy_in}
use gravity_gpu_project.Ring.Window.{window_congr, copy_in-frame}
use gravity_gpu_project.Ring.Channel.{used, IsChannel, held}
use gravity_gpu_project.Ring.Transfer.{used-lt-size}

pub record IsValid (ring : Ring) (shm : Shm) : Type 0 where
  pub cmd : IsChannel ring.cmd_ring_size ring.cmd_ring_mask shm.header.cmd_head shm.header.cmd_tail
  pub comp :
      IsChannel ring.comp_ring_size ring.comp_ring_mask shm.header.comp_head shm.header.comp_tail
  pub cmd_before_comp : ring.cmd_ring + ring.cmd_ring_size ≤ ring.comp_ring
  pub comp_before_data : ring.comp_ring + ring.comp_ring_size ≤ ring.data_region

-- the bytes that the guest has sent and the host has not consumed, oldest first
abbrev pub cmd_queue : Ring → Shm → List ℕ
cmd_queue ring shm =
    held shm.byte ring.cmd_ring ring.cmd_ring_size ring.cmd_ring_mask shm.header.cmd_head
      shm.header.cmd_tail

-- the bytes that the host has sent and the guest has not read, oldest first
abbrev pub comp_queue : Ring → Shm → List ℕ
comp_queue ring shm =
    held shm.byte ring.comp_ring ring.comp_ring_size ring.comp_ring_mask shm.header.comp_head
      shm.header.comp_tail

module _ {size mask head tail : ℕ} (v : IsChannel size mask head tail) where
  pub size-bounds : (0 < size) × (size ≤ 2 ^ 31)
  size-bounds = omega (arith, v.size_eq, one-le-pow v.width 2, le_of_pow v.width 31 v.narrow)

  -- The free space that the code computes in 32 bits: one place is never used.
  pub space_lem : sub32 (sub32 size 1) (used mask head tail) + used mask head tail + 1 ≡ size
  space_lem = omega (arith, size-bounds, used-lt-size v)

-- A write into the channel at `base` leaves a channel alone that does not overlap it.
pub held_apart :
    (m : Memory) (base other : ℕ) {size mask head tail size' mask' head' tail' : ℕ} (src : List ℕ)
    → IsChannel size mask head tail
    → IsChannel size' mask' head' tail'
    → (base + size ≤ other) ⊎ (other + size' ≤ base)
    → held (copy_in base mask tail 0 src m) other size' mask' head' tail'
      ≡ held m other size' mask' head' tail'
held_apart m base other {mask = mask} {tail = tail} {size' = size'} {head' = head'} src v w apart =
    window_congr other size' (copy_in base mask tail 0 src m) m head' 0 _ λ j _ _. rw v.mask_eq (
      copy_in-frame base v.width (omega (arith, v.narrow)) src m tail 0 _ λ i _ _ e. omega (
        arith,
        apart,
        v.size_eq,
        mod-lt (head' + j) {m = size'} (size-bounds w).0,
        mod-lt (tail + i) {m = 2 ^ v.width} (one-le-pow v.width 2 (omega arith)),
      ))

-- A write into a channel changes nothing behind the channel.
pub copy_in_behind :
    (m : Memory) (base a : ℕ) {size mask head tail : ℕ} (src : List ℕ)
    → IsChannel size mask head tail
    → base + size ≤ a
    → copy_in base mask tail 0 src m a ≡ m a
copy_in_behind m base a {tail = tail} src v behind = rw v.mask_eq (
    copy_in-frame base v.width (omega (arith, v.narrow)) src m tail 0 a λ i _ _ e.
      omega (
        arith,
        v.size_eq,
        mod-lt (tail + i) {m = 2 ^ v.width} (one-le-pow v.width 2 (omega arith)),
      ))
