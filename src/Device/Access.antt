-- ===== src/Device/Access.antt =====
-- Accesses of the guest to the region behind BAR2.
use native.Mathlib.Nat.{
  pow-suc, one-le-pow, mul-add-mod_self_left, mod-eq_of_lt, mod-lt, div-add-mod,
}
use gravity_gpu_project.Prelude.{
  sym, false, le→ltb, ap, ◌∙◌, ℕ, zero, suc, ◌+◌, ◌*◌, ◌/◌, ◌%◌, ◌^◌, ◌≤◌, ◌<◌, ◌≡◌, refl, ◌⊎◌, inl,
  arith, ltb, u64_mod,
}
use gravity_gpu_project.Ring.Memory.{Memory, store}
use gravity_gpu_project.Device.Bar2.{load_bytes, store_bytes, shmem_read, shmem_write}

store_bytes-above :
    (m : Memory) (a n val b : ℕ) → (b < a) ⊎ (a + n ≤ b) → store_bytes m a n val b ≡ m b
unfolding store_bytes
store_bytes-above m a zero val b h = refl
store_bytes-above m a (suc n) val b h =
    store_bytes-above (store m a (val % 256)) (a + 1) n (val / 256) b (ground arith) ∙ ground arith

store_here : (m : Memory) (a v : ℕ) → store m a v a ≡ v
store_here m a v = ground arith

-- a remainder by a multiple of 256, with the low byte apart
mod_low_byte : (a k : ℕ) → 1 ≤ k → a % (256 * k) ≡ a % 256 + 256 * (a / 256 % k)
mod_low_byte a k h =
    ap (λ t. t % (256 * k)) split
    ∙ mul-add-mod_self_left (256 * k) (a / 256 / k) low
    ∙ mod-eq_of_lt (omega (arith, mod-lt (a / 256) h))
  where
    low : ℕ
    low = a % 256 + 256 * (a / 256 % k)

    split : a ≡ 256 * k * (a / 256 / k) + low
    split = omega (arith, ap (λ (t : ℕ). t * 256) (div-add-mod (a / 256) k))

in_bounds :
    (shmem_size e : ℕ)
    → e ≤ shmem_size
    → shmem_size < u64_mod
    → ltb shmem_size (e % u64_mod) ≡ false
in_bounds shmem_size e h small =
    let same : e % u64_mod ≡ e = omega arith in rw same (le→ltb shmem_size e h)

load-store : (m : Memory) (a n val : ℕ) → load_bytes (store_bytes m a n val) a n ≡ val % 256 ^ n
unfolding load_bytes store_bytes
load-store m a zero val = omega arith
load-store m a (suc n) val =
    ap (λ x. x + 256 * load_bytes rest (a + 1) n) first
    ∙ ap (λ y. val % 256 + 256 * y) (load-store (store m a (val % 256)) (a + 1) n (val / 256))
    ∙ sym (mod_low_byte val (256 ^ n) (one-le-pow n 256 (omega arith)))
    ∙ ap (λ k. val % k) (omega (arith, pow-suc 256 n))
  where
    rest : Memory
    rest = store_bytes (store m a (val % 256)) (a + 1) n (val / 256)

    first : rest a ≡ val % 256
    first =
        store_bytes-above (store m a (val % 256)) (a + 1) n (val / 256) a (inl (omega arith))
        ∙ store_here m a (val % 256)

-- the sizes that an access may have
pub data AccessSize : ℕ → Type 0 where
  byte_size : AccessSize 1
  half_size : AccessSize 2
  word_size : AccessSize 4
  long_size : AccessSize 8

-- For an access of 1, 2, 4 or 8 bytes inside the region, a read through BAR2 gives the value of
-- the last write there, cut to the size of the access.
pub shmem_read-write :
    (m : Memory) (shmem_size addr val : ℕ) {size : ℕ}
    → AccessSize size
    → addr + size ≤ shmem_size
    → shmem_size < u64_mod
    → shmem_read (shmem_write m shmem_size addr val size) shmem_size addr size ≡ val % 256 ^ size
unfolding shmem_read shmem_write
shmem_read-write m shmem_size addr val byte_size h small =
    rw (in_bounds shmem_size (addr + 1) h small) (load-store m addr 1 val)
shmem_read-write m shmem_size addr val half_size h small =
    rw (in_bounds shmem_size (addr + 2) h small) (load-store m addr 2 val)
shmem_read-write m shmem_size addr val word_size h small =
    rw (in_bounds shmem_size (addr + 4) h small) (load-store m addr 4 val)
shmem_read-write m shmem_size addr val long_size h small =
    rw (in_bounds shmem_size (addr + 8) h small) (load-store m addr 8 val)

-- A write through BAR2 of any size whose end does not wrap changes no byte outside its range and
-- none behind the region.
pub shmem_write-outside :
    (m : Memory) (shmem_size addr val size b : ℕ)
    → addr + size < u64_mod
    → (b < addr) ⊎ ((addr + size ≤ b) ⊎ (shmem_size ≤ b))
    → shmem_write m shmem_size addr val size b ≡ m b
unfolding shmem_write
shmem_write-outside m shmem_size addr val size b fits h = ground (
  arith,
  fits,
  store_bytes-above m addr 1 val b,
  store_bytes-above m addr 2 val b,
  store_bytes-above m addr 4 val b,
  store_bytes-above m addr 8 val b,
)
