-- ===== src/Ring/Fifo.antt =====
-- The command ring as a bounded FIFO: `gravity_ring_cmd_write`, `_peek` and `_consume` of
-- protocol/include/gravity_ring.h against the queue of the bytes held.
use mathlib.Core.Option
use gravity_gpu_project.Prelude.{
  ℕ, ◌+◌, ◌-◌, ◌≤◌, ◌<◌, ◌≡◌, refl, ap, some, true, false, List, ◌++◌, arith, length, drop, load32,
  inl, bit_and, add32, length-append, ◌∙◌, Bool, ltb, ◌||◌, if◌then◌else◌,
}
use gravity_gpu_project.Protocol.Header.{header_size}
use gravity_gpu_project.Ring.Memory.{Shm, Ring, copy_in, copy_out, overwrite}
use gravity_gpu_project.Ring.Command.{cmd_available, cmd_write, cmd_peek, cmd_consume}
use gravity_gpu_project.Ring.Channel.{used}
use gravity_gpu_project.Ring.Transfer.{enqueue, length-held, used-lt-size}
use gravity_gpu_project.Ring.Front.{first_part, size_read, whole_read, take_front}
use gravity_gpu_project.Ring.Valid.{
  IsValid, cmd_queue, comp_queue, space_lem, held_apart, copy_in_behind,
}
use gravity_gpu_project.Ring.Queue.{submit}

ge_test : (m n : ℕ) → n ≤ m → ltb m n ≡ false
ge_test m n h = ground arith

third :
    {A : Type 0} (p q r : Bool) (x y z : A)
    → p ≡ false
    → q ≡ false
    → r ≡ false
    → (if p then x else if q || r then y else z) ≡ z
third p q r x y z ep eq er = rw (ep, eq, er) refl

module _ {ring : Ring} {shm : Shm} (v : IsValid ring shm) where
  -- In a valid region, `gravity_ring_cmd_write` accepts or refuses a command exactly as a bounded
  -- queue of the waiting bytes would: it refuses an empty command, one longer than half the ring
  -- and one that does not fit in the `size - 1` bytes of the queue, and an accepted one stands
  -- behind the bytes that were waiting.
  pub cmd_write_refines :
      (src : List ℕ)
      → Option.map (cmd_queue ring) (cmd_write ring shm src)
        ≡ submit ring.cmd_ring_size (cmd_queue ring shm) src
  unfolding cmd_write submit
  cmd_write_refines src = ground (
    arith,
    space_lem v.cmd,
    length-held shm.byte ring.cmd_ring v.cmd,
    enqueue shm.byte ring.cmd_ring v.cmd src,
    used-lt-size v.cmd,
  )

  -- the region as an accepted command leaves it
  abbrev written : List ℕ → Shm
  written src = record {
    header = record shm.header {
      cmd_tail = bit_and (add32 shm.header.cmd_tail (length src)) ring.cmd_ring_mask;
    };
    byte = copy_in ring.cmd_ring ring.cmd_ring_mask shm.header.cmd_tail 0 src shm.byte;
  }

  accepted :
      (src : List ℕ) {shm' : Shm}
      → cmd_write ring shm src ≡ some shm'
      → (shm' ≡ written src)
        × (used ring.cmd_ring_mask shm.header.cmd_head shm.header.cmd_tail + length src
            < ring.cmd_ring_size)
  unfolding cmd_write
  accepted src e = ground (arith, space_lem v.cmd)

  -- In a valid region, an accepted command keeps the region valid, and changes neither the
  -- waiting completions nor any byte from the data region on.
  pub cmd_write-IsValid :
      (src : List ℕ) {shm' : Shm}
      → cmd_write ring shm src ≡ some shm'
      → IsValid ring shm'
        × (comp_queue ring shm' ≡ comp_queue ring shm)
        × ((a : ℕ) → ring.data_region ≤ a → shm'.byte a ≡ shm.byte a)
  cmd_write-IsValid src e =
      let (same, room) = accepted src e in
      rw same (
        record {
          cmd = (enqueue shm.byte ring.cmd_ring v.cmd src room).0;
          comp = v.comp;
          cmd_before_comp = v.cmd_before_comp;
          comp_before_data = v.comp_before_data;
        },
        held_apart shm.byte ring.cmd_ring ring.comp_ring src v.cmd v.comp (inl v.cmd_before_comp),
        λ a above.
            copy_in_behind shm.byte ring.cmd_ring a src v.cmd
              (omega (arith, v.cmd_before_comp, v.comp_before_data)),
      )

  -- In a valid region whose command queue starts with a whole command, of at least a header and
  -- with its own length in the size field, `gravity_ring_cmd_peek` into a buffer that is large
  -- enough reads exactly that command, and the rest of the buffer stays as it was.
  pub cmd_peek-front :
      (cmd rest buf : List ℕ)
      → cmd_queue ring shm ≡ cmd ++ rest
      → header_size ≤ length cmd
      → length cmd ≤ length buf
      → load32 cmd 4 ≡ length cmd
      → cmd_peek ring shm buf ≡ (true, cmd ++ drop (length cmd) buf)
  unfolding cmd_peek first_part
  cmd_peek-front cmd rest buf e long fits framed =
      let (_, read, _) = take_front shm.byte ring.cmd_ring cmd rest v.cmd e in
      let size = size_read _ _ _ _ cmd buf read long (omega arith) in
      let whole = whole_read _ _ _ _ cmd buf read long (omega arith) fits in
      ground (
        arith,
        size,
        whole,
        length-held shm.byte ring.cmd_ring v.cmd,
        ap length e,
        length-append cmd rest,
      )

  -- In a valid region whose command queue starts with a command, with its own length in the size
  -- field, that is longer than the buffer, `gravity_ring_cmd_peek` into a buffer of at least a
  -- header returns no command, whatever follows in the queue.
  pub cmd_peek-large :
      (cmd rest buf : List ℕ)
      → cmd_queue ring shm ≡ cmd ++ rest
      → header_size ≤ length buf
      → length buf < length cmd
      → load32 cmd 4 ≡ length cmd
      → (cmd_peek ring shm buf).0 ≡ false
  unfolding cmd_peek first_part
  cmd_peek-large cmd rest buf e long large framed =
      let (_, read, _) = take_front shm.byte ring.cmd_ring cmd rest v.cmd e in
      let size = size_read _ _ _ _ cmd buf read (omega arith) long in ground (arith, size)

  -- A header at the front whose size field is less than a header is read alone.
  pub cmd_peek-small :
      (cmd rest buf : List ℕ)
      → cmd_queue ring shm ≡ cmd ++ rest
      → length cmd ≡ header_size
      → header_size ≤ length buf
      → load32 cmd 4 < header_size
      → cmd_peek ring shm buf ≡ (true, cmd ++ drop (length cmd) buf)
  unfolding cmd_peek first_part cmd_available
  cmd_peek-small cmd rest buf e long fits small =
      let (_, read, _) = take_front shm.byte ring.cmd_ring cmd rest v.cmd e in
      let size = size_read _ _ _ _ cmd buf read (omega arith) fits in
      let whole = whole_read _ _ _ _ cmd buf read (omega arith) fits (omega (arith, long, fits)) in
      let held_length = length-held shm.byte ring.cmd_ring v.cmd in
      let sum = ap length e ∙ length-append cmd rest in
      let first : List ℕ =
        first_part ring.cmd_ring ring.cmd_ring_mask shm.header.cmd_head shm.byte cmd buf in
      let there : ltb (cmd_available ring shm) header_size ≡ false =
        ge_test _ _ (omega (arith, held_length, sum, long)) in
      let whole_there : ltb (cmd_available ring shm) (load32 first 4) ≡ false =
        ge_test _ _ (omega (arith, held_length, sum, long, size, small)) in
      let room : ltb (length buf) (load32 first 4) ≡ false =
        ge_test _ _ (omega (arith, fits, size, small)) in
      let nothing : load32 first 4 - header_size ≡ length cmd - header_size =
        omega (arith, size, small, long) in
      third _ _ _ (false, buf) (false, first) _ there whole_there room
      ∙ ap (λ (l : List ℕ). (true, l))
          (ap
              (λ n.
                overwrite header_size
                  (copy_out ring.cmd_ring ring.cmd_ring_mask shm.header.cmd_head header_size n
                    shm.byte)
                  first)
              nothing
            ∙ whole)

  -- With less than a header in the ring the host sees no command, and its buffer is left alone.
  pub cmd_peek-short :
      (buf : List ℕ)
      → length (cmd_queue ring shm) < header_size
      → cmd_peek ring shm buf ≡ (false, buf)
  unfolding cmd_peek
  cmd_peek-short buf short = ground (arith, length-held shm.byte ring.cmd_ring v.cmd)

  -- In a valid region whose command queue starts with a command, consuming its length takes
  -- exactly its bytes off the queue, keeps the region valid and leaves the completion queue
  -- alone.
  pub cmd_consume-front :
      (cmd rest : List ℕ)
      → cmd_queue ring shm ≡ cmd ++ rest
      → let shm' = cmd_consume ring shm (length cmd) in
        IsValid ring shm'
        × (cmd_queue ring shm' ≡ rest)
        × (comp_queue ring shm' ≡ comp_queue ring shm)
  unfolding cmd_consume
  cmd_consume-front cmd rest e =
      let (v', _, left) = take_front shm.byte ring.cmd_ring cmd rest v.cmd e in
      (
        record {
          cmd = v';
          comp = v.comp;
          cmd_before_comp = v.cmd_before_comp;
          comp_before_data = v.comp_before_data;
        },
        left,
        refl,
      )
