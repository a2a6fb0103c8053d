-- ===== src/Ring/Queue.antt =====
-- What a ring promises: a bounded FIFO of bytes that takes and gives whole messages.
use gravity_gpu_project.Prelude.{
  ℕ, ◌+◌, ◌-◌, ◌/◌, Option, none, some, ◌||◌, List, ◌++◌, if◌then◌else◌, ltb, ◌==◌, length,
}

-- A queue of `size - 1` bytes accepts a message that fits behind what it holds.
unfoldable pub offer : ℕ → List ℕ → List ℕ → Option (List ℕ)
offer size queue src =
    if ltb (size - 1) (length queue + length src) then none else some (queue ++ src)

-- The command queue takes neither an empty message nor one longer than half the ring.
unfoldable pub submit : ℕ → List ℕ → List ℕ → Option (List ℕ)
unfolding offer
submit size queue src =
    if length src == 0 || ltb (size / 2) (length src) then none else offer size queue src
