-- ===== src/Ring/Reply.antt =====
-- The completion ring as a bounded FIFO: `gravity_ring_comp_write` and `_comp_read` of
-- protocol/include/gravity_ring.h against the queue of the bytes held.
use mathlib.Core.Option
use gravity_gpu_project.Prelude.{
  ℕ, ◌+◌, ◌≤◌, ◌<◌, ◌≡◌, refl, ap, some, List, ◌++◌, arith, length, drop, load32, inr, bit_and,
  add32, length-append,
}
use gravity_gpu_project.Protocol.Header.{header_size}
use gravity_gpu_project.Ring.Memory.{Shm, Ring, copy_in, copy_out}
use gravity_gpu_project.Ring.Completion.{empty, received, comp_write, comp_read}
use gravity_gpu_project.Ring.Channel.{used}
use gravity_gpu_project.Ring.Transfer.{enqueue, length-held, used-lt-size}
use gravity_gpu_project.Ring.Front.{first_part, size_read, whole_read, take_front}
use gravity_gpu_project.Ring.Valid.{
  IsValid, cmd_queue, comp_queue, space_lem, held_apart, copy_in_behind,
}
use gravity_gpu_project.Ring.Queue.{offer}

module _ {ring : Ring} {shm : Shm} (v : IsValid ring shm) where
  -- In a valid region, `gravity_ring_comp_write` accepts or refuses a completion exactly as a
  -- bounded queue of the waiting bytes would, and an accepted one stands behind the bytes that
  -- were waiting.
  pub comp_write_refines :
      (src : List ℕ)
      → Option.map (comp_queue ring) (comp_write ring shm src)
        ≡ offer ring.comp_ring_size (comp_queue ring shm) src
  unfolding comp_write offer
  comp_write_refines src = ground (
    arith,
    space_lem v.comp,
    length-held shm.byte ring.comp_ring v.comp,
    enqueue shm.byte ring.comp_ring v.comp src,
    used-lt-size v.comp,
  )

  -- the region as an accepted completion leaves it
  abbrev written : List ℕ → Shm
  written src = record {
    header = record shm.header {
      comp_tail = bit_and (add32 shm.header.comp_tail (length src)) ring.comp_ring_mask;
    };
    byte = copy_in ring.comp_ring ring.comp_ring_mask shm.header.comp_tail 0 src shm.byte;
  }

  accepted :
      (src : List ℕ) {shm' : Shm}
      → comp_write ring shm src ≡ some shm'
      → (shm' ≡ written src)
        × (used ring.comp_ring_mask shm.header.comp_head shm.header.comp_tail + length src
            < ring.comp_ring_size)
  unfolding comp_write
  accepted src e = ground (arith, space_lem v.comp)

  -- In a valid region, an accepted completion keeps the region valid, and changes neither the
  -- waiting commands nor any byte from the data region on.
  pub comp_write-IsValid :
      (src : List ℕ) {shm' : Shm}
      → comp_write ring shm src ≡ some shm'
      → IsValid ring shm'
        × (cmd_queue ring shm' ≡ cmd_queue ring shm)
        × ((a : ℕ) → ring.data_region ≤ a → shm'.byte a ≡ shm.byte a)
  comp_write-IsValid src e =
      let (same, room) = accepted src e in
      rw same (
        record {
          cmd = v.cmd;
          comp = (enqueue shm.byte ring.comp_ring v.comp src room).0;
          cmd_before_comp = v.cmd_before_comp;
          comp_before_data = v.comp_before_data;
        },
        held_apart shm.byte ring.comp_ring ring.cmd_ring src v.comp v.cmd (inr v.cmd_before_comp),
        λ a above.
            copy_in_behind shm.byte ring.comp_ring a src v.comp (omega (arith, v.comp_before_data)),
      )

  reads :
      (comp rest buf : List ℕ)
      → comp_queue ring shm ≡ comp ++ rest
      → header_size ≤ length comp
      → length comp ≤ length buf
      → load32 comp 4 ≡ length comp
      → copy_out ring.comp_ring ring.comp_ring_mask shm.header.comp_head 0 (length comp) shm.byte
        ≡ comp
      → comp_read ring shm buf ≡ (
        received (length comp),
        comp ++ drop (length comp) buf,
        record shm {
          header = record shm.header {
            comp_head = bit_and (add32 shm.header.comp_head (length comp)) ring.comp_ring_mask;
          };
        },
      )
  unfolding comp_read first_part
  reads comp rest buf e long fits framed read =
      let size = size_read _ _ _ _ comp buf read long (omega arith) in
      let whole = whole_read _ _ _ _ comp buf read long (omega arith) fits in
      ground (
        arith,
        size,
        whole,
        length-held shm.byte ring.comp_ring v.comp,
        ap length e,
        length-append comp rest,
      )

  -- In a valid region whose completion queue starts with a whole completion, of at least a header
  -- and with its own length in the size field, `gravity_ring_comp_read` into a buffer that is
  -- large enough gives exactly that completion and its size, and leaves the region valid, without
  -- that completion, and with the commands that were waiting.
  pub comp_read-front :
      (comp rest buf : List ℕ)
      → comp_queue ring shm ≡ comp ++ rest
      → header_size ≤ length comp
      → length comp ≤ length buf
      → load32 comp 4 ≡ length comp
      → let (result, buf', shm') = comp_read ring shm buf in
        (result ≡ received (length comp))
        × (buf' ≡ comp ++ drop (length comp) buf)
        × IsValid ring shm'
        × (comp_queue ring shm' ≡ rest)
        × (cmd_queue ring shm' ≡ cmd_queue ring shm)
  comp_read-front comp rest buf e long fits framed =
      let (v', read, left) = take_front shm.byte ring.comp_ring comp rest v.comp e in
      rw (reads comp rest buf e long fits framed read) (
        refl,
        refl,
        record {
          cmd = v.cmd;
          comp = v';
          cmd_before_comp = v.cmd_before_comp;
          comp_before_data = v.comp_before_data;
        },
        left,
        refl,
      )

  -- With less than a header in the ring nothing is read.
  pub comp_read-short :
      (buf : List ℕ)
      → length (comp_queue ring shm) < header_size
      → comp_read ring shm buf ≡ (empty, buf, shm)
  unfolding comp_read
  comp_read-short buf short = ground (arith, length-held shm.byte ring.comp_ring v.comp)
