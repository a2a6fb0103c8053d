-- ===== src/Tests/Ring.antt =====
-- A region with a command ring and a completion ring of 64 bytes, in each of which one message
-- waits across the end of the ring.
use mathlib.Core.Option
use gravity_gpu_project.Prelude.{ℕ, ◌≡◌, refl, List, [], ◌∷◌, ◌++◌, some, true, false, arith}
use gravity_gpu_project.Ring.Memory.{Ring, Shm, copy_in}
use gravity_gpu_project.Ring.Setup.{fresh_header}
use gravity_gpu_project.Ring.Command.{cmd_write, cmd_peek, cmd_consume}
use gravity_gpu_project.Ring.Completion.{comp_write, comp_read, received}
use gravity_gpu_project.Ring.Channel.{IsChannel}
use gravity_gpu_project.Ring.Valid.{IsValid, cmd_queue, comp_queue}
use gravity_gpu_project.Ring.Queue.{submit, offer}
use gravity_gpu_project.Ring.Fifo.{
  cmd_write_refines, cmd_peek-front, cmd_peek-large, cmd_consume-front,
}
use gravity_gpu_project.Ring.Reply.{comp_write_refines, comp_read-front}

abbrev pub ring : Ring
ring = record {
  cmd_ring = 64;
  comp_ring = 128;
  data_region = 192;
  cmd_ring_size = 64;
  cmd_ring_mask = 63;
  comp_ring_size = 64;
  comp_ring_mask = 63;
  data_region_size = 128;
  data_alloc_offset = 0;
}

-- PING, 18 bytes long
abbrev pub message : List ℕ
message = 3 ∷ 0 ∷ 0 ∷ 0 ∷ 18 ∷ 0 ∷ 0 ∷ 0 ∷ 1 ∷ 0 ∷ 0 ∷ 0 ∷ 0 ∷ 0 ∷ 0 ∷ 0 ∷ 7 ∷ 8 ∷ []

abbrev pub shm : Shm
shm = record {
  header = record (fresh_header 320 64 64) {
    cmd_head = 56;
    cmd_tail = 10;
    comp_head = 56;
    comp_tail = 10;
  };
  byte = copy_in 128 63 56 0 message (copy_in 64 63 56 0 message (λ a. 0));
}

abbrev buffer : List ℕ
buffer = 9 ∷ 9 ∷ 9 ∷ 9 ∷ 9 ∷ 9 ∷ 9 ∷ 9 ∷ 9 ∷ 9 ∷ 9 ∷ 9 ∷ 9 ∷ 9 ∷ 9 ∷ 9 ∷ 9 ∷ 9 ∷ 9 ∷ 9 ∷ []

pub channel : IsChannel 64 63 56 10
channel = record {
  width = 6;
  narrow = omega arith;
  size_eq = refl;
  mask_eq = refl;
  head_in = omega arith;
  tail_in = omega arith;
}

pub valid : IsValid ring shm
unfolding fresh_header
valid = record {
  cmd = channel;
  comp = channel;
  cmd_before_comp = omega arith;
  comp_before_data = omega arith;
}

pub waiting : cmd_queue ring shm ≡ message ++ []
unfolding copy_in fresh_header
waiting = refl

answers : comp_queue ring shm ≡ message ++ []
unfolding copy_in fresh_header
answers = refl

cmd_write_refines_example :
    Option.map (cmd_queue ring) (cmd_write ring shm message)
    ≡ submit 64 (cmd_queue ring shm) message
cmd_write_refines_example = cmd_write_refines valid message

abbrev after_cmd : Shm
after_cmd = record {
  header = record shm.header { cmd_tail = 28 };
  byte = copy_in 64 63 10 0 message shm.byte;
}

cmd_written : cmd_write ring shm message ≡ some after_cmd
unfolding cmd_write fresh_header
cmd_written = refl

cmd_peek-front_example : cmd_peek ring shm buffer ≡ (true, message ++ (9 ∷ 9 ∷ []))
cmd_peek-front_example =
    cmd_peek-front valid message [] buffer waiting (omega arith) (omega arith) refl

cmd_consume-front_example :
    IsValid ring (cmd_consume ring shm 18)
    × (cmd_queue ring (cmd_consume ring shm 18) ≡ [])
    × (comp_queue ring (cmd_consume ring shm 18) ≡ comp_queue ring shm)
cmd_consume-front_example = cmd_consume-front valid message [] waiting

comp_write_refines_example :
    Option.map (comp_queue ring) (comp_write ring shm message)
    ≡ offer 64 (comp_queue ring shm) message
comp_write_refines_example = comp_write_refines valid message

abbrev after_comp : Shm
after_comp = record {
  header = record shm.header { comp_tail = 28 };
  byte = copy_in 128 63 10 0 message shm.byte;
}

comp_written : comp_write ring shm message ≡ some after_comp
unfolding comp_write fresh_header
comp_written = refl

comp_read-front_example :
    let (result, buf', shm') = comp_read ring shm buffer in
    (result ≡ received 18)
    × (buf' ≡ message ++ (9 ∷ 9 ∷ []))
    × IsValid ring shm'
    × (comp_queue ring shm' ≡ [])
    × (cmd_queue ring shm' ≡ cmd_queue ring shm)
comp_read-front_example =
    comp_read-front valid message [] buffer answers (omega arith) (omega arith) refl

abbrev small_buffer : List ℕ
small_buffer = 9 ∷ 9 ∷ 9 ∷ 9 ∷ 9 ∷ 9 ∷ 9 ∷ 9 ∷ 9 ∷ 9 ∷ 9 ∷ 9 ∷ 9 ∷ 9 ∷ 9 ∷ 9 ∷ []

cmd_peek-large_example : (cmd_peek ring shm small_buffer).0 ≡ false
cmd_peek-large_example =
    cmd_peek-large valid message [] small_buffer waiting (omega arith) (omega arith) refl
