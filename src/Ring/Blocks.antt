-- ===== src/Ring/Blocks.antt =====
-- The data region: where `gravity_ring_data_write` puts a block, and what `gravity_ring_data_ptr`
-- finds under the offset that it returns.
use gravity_gpu_project.Prelude.{
  ℕ, zero, suc, ◌+◌, ◌-◌, ◌%◌, ◌^◌, ◌≤◌, ◌<◌, ◌≡◌, ◌⊎◌, refl, ap₂, ◌∙◌, none, some, List, [], ◌∷◌,
  arith, length, add32,
}
use gravity_gpu_project.Prelude.Bits.{bit_and-align64}
use gravity_gpu_project.Ring.Memory.{Memory, Shm, Ring, store}
use gravity_gpu_project.Ring.Region.{copy_bytes, data_offset, next_mark, data_write, data_ptr}

-- the `n` bytes at offset `a`
abbrev pub bytes_at : Memory → ℕ → ℕ → List ℕ
bytes_at m a zero = []
bytes_at m a (suc n) = m a ∷ bytes_at m (a + 1) n

-- The pointer agrees with the header, and no sum of an offset and a size reaches 2^32.
pub record IsRegion (ring : Ring) (shm : Shm) : Type 0 where
  pub start : ring.data_region ≡ shm.header.data_region_offset
  pub size_small : ring.data_region_size ≤ 2 ^ 31 - 64
  pub end_small : ring.data_region + ring.data_region_size < 2 ^ 32
  pub mark_in : ring.data_alloc_offset < ring.data_region_size
  pub mark_aligned : ring.data_alloc_offset % 64 ≡ 0

pub copy_bytes-outside :
    (src : List ℕ) (m : Memory) (a c : ℕ)
    → (c < a) ⊎ (a + length src ≤ c)
    → copy_bytes a src m c ≡ m c
unfolding copy_bytes
copy_bytes-outside [] m a c h = refl
copy_bytes-outside (x ∷ src) m a c h =
    copy_bytes-outside src (store m a x) (a + 1) c (ground arith) ∙ ground arith

bytes_at-copy_bytes :
    (src : List ℕ) (m : Memory) (a : ℕ) → bytes_at (copy_bytes a src m) a (length src) ≡ src
unfolding copy_bytes
bytes_at-copy_bytes [] m a = refl
bytes_at-copy_bytes (x ∷ src) m a =
    ap₂ ◌∷◌ (copy_bytes-outside src (store m a x) (a + 1) a (omega arith) ∙ ground arith)
      (bytes_at-copy_bytes src (store m a x) (a + 1))

module _ {ring : Ring} {shm : Shm} (v : IsRegion ring shm) (src : List ℕ)
    (fits : length src ≤ ring.data_region_size) where
  place_fits : data_offset ring (length src) + length src ≤ ring.data_region_size
  unfolding data_offset
  place_fits = ground arith

  mark_lem :
      (end : ℕ)
      → end ≤ ring.data_region_size
      → (next_mark ring end < ring.data_region_size)
        × (next_mark ring end % 64 ≡ 0)
        × ((next_mark ring end ≡ 0) ⊎ (end ≤ next_mark ring end))
  unfolding next_mark
  mark_lem end h = ground (arith, bit_and-align64 (add32 end 63))

-- An offset inside the region is found where it is.
pub data_ptr-inside :
    (ring : Ring) (shm : Shm) (o : ℕ)
    → ring.data_region ≡ shm.header.data_region_offset
    → o < ring.data_region_size
    → ring.data_region_size ≤ 2 ^ 32
    → data_ptr ring shm (ring.data_region + o) ≡ some (ring.data_region + o)
unfolding data_ptr
data_ptr-inside ring shm o e h small = ground arith

-- What a write of `src` has done when it returns `off`.
pub record Wrote (ring : Ring) (shm : Shm) (src : List ℕ) (off : ℕ) (ring' : Ring) (shm' : Shm)
    : Type 0 where
  pub from_start : ring.data_region ≤ off
  pub to_end : off + length src ≤ ring.data_region + ring.data_region_size
  pub written : bytes_at shm'.byte off (length src) ≡ src
  pub elsewhere : (c : ℕ) → (c < off) ⊎ (off + length src ≤ c) → shm'.byte c ≡ shm.byte c
  pub same_header : shm'.header ≡ shm.header
  pub found : data_ptr ring' shm' off ≡ some off
  pub next_behind :
      (ring'.data_alloc_offset ≡ 0)
      ⊎ (off + length src ≤ ring.data_region + ring'.data_alloc_offset)
  pub region : IsRegion ring' shm'

module _ {ring : Ring} {shm : Shm} (v : IsRegion ring shm) (src : List ℕ) where
  writes :
      0 < length src
      → length src ≤ ring.data_region_size
      → data_write ring shm src
        ≡ some (
          ring.data_region + data_offset ring (length src),
          record ring {
            data_alloc_offset = next_mark ring (data_offset ring (length src) + length src);
          },
          record shm {
            byte = copy_bytes (ring.data_region + data_offset ring (length src)) src shm.byte;
          },
        )
  unfolding data_write
  writes some_bytes fits =
      let inside = place_fits v src fits in
      let at : add32 shm.header.data_region_offset (data_offset ring (length src))
          ≡ ring.data_region + data_offset ring (length src) =
        omega arith in
      let end : add32 (data_offset ring (length src)) (length src)
          ≡ data_offset ring (length src) + length src =
        omega arith in
      rw (at, end) (ground arith)

  -- In a data region of at most 2^31 - 64 bytes, whose allocation mark is inside and aligned,
  -- `gravity_ring_data_write` of a block that is not empty and fits the region succeeds: the
  -- block stands inside the region at the returned offset, which `gravity_ring_data_ptr` finds,
  -- every other byte and the header stay, the mark goes behind the block or to the start, and the
  -- region keeps its invariant.
  pub data_write-Wrote :
      0 < length src
      → length src ≤ ring.data_region_size
      → (off : ℕ) × (ring' : Ring) × (shm' : Shm) × (data_write ring shm src
          ≡ some (off, ring', shm'))
        × Wrote ring shm src off ring' shm'
  data_write-Wrote some_bytes fits = (
    off,
    ring',
    shm',
    writes some_bytes fits,
    record {
      from_start = omega arith;
      to_end = omega (arith, place_fits v src fits);
      written = bytes_at-copy_bytes src shm.byte off;
      elsewhere = λ c h. copy_bytes-outside src shm.byte off c h;
      same_header = refl;
      found =
          data_ptr-inside ring' shm' (data_offset ring (length src)) v.start
            (omega (arith, place_fits v src fits)) (omega (arith, v.size_small));
      next_behind = ground (arith, mark_lem v src fits end (place_fits v src fits));
      region = record {
        start = v.start;
        size_small = v.size_small;
        end_small = v.end_small;
        mark_in = (mark_lem v src fits end (place_fits v src fits)).0;
        mark_aligned = (mark_lem v src fits end (place_fits v src fits)).1;
      };
    },
  )
    where
      end : ℕ
      end = data_offset ring (length src) + length src

      off : ℕ
      off = ring.data_region + data_offset ring (length src)

      ring' : Ring
      ring' = record ring { data_alloc_offset = next_mark ring end }

      shm' : Shm
      shm' = record shm { byte = copy_bytes off src shm.byte }

  -- A larger block is refused.
  pub data_write-none : ring.data_region_size < length src → data_write ring shm src ≡ none
  unfolding data_write
  data_write-none large = ground arith
