-- ===== src/Ring/Front.antt =====
-- Reading the message at the front of a channel into a buffer, in two parts as `gravity_ring_cmd_peek`
-- and `gravity_ring_comp_read` do: the header first, then as many bytes as its size field says.
use mathlib.Core.List.{append_assoc}
use native.Mathlib.Nat.{add-zero, zero-add}
use gravity_gpu_project.Prelude.{
  ℕ, zero, suc, ◌+◌, ◌-◌, ◌≤◌, ◌<◌, ◌≡◌, refl, ap, ap₂, ◌∙◌, sym, List, [], ◌∷◌, ◌++◌, arith,
  length, drop, min, load32, bit_and, add32, length-append, length-drop, get_or-append,
  append_injective, drop-drop,
}
use gravity_gpu_project.Protocol.Header.{header_size}
use gravity_gpu_project.Ring.Memory.{Memory, copy_out, overwrite}
use gravity_gpu_project.Ring.Channel.{used, IsChannel, held}
use gravity_gpu_project.Ring.Transfer.{dequeue, length-held}

pub length-copy_out : (ring mask h i n : ℕ) (m : Memory) → length (copy_out ring mask h i n m) ≡ n
unfolding copy_out
length-copy_out ring mask h i zero m = refl
length-copy_out ring mask h i (suc n) m = ap suc (length-copy_out ring mask h (i + 1) n m)

copy_out-append :
    (ring mask h i n k : ℕ) (m : Memory)
    → copy_out ring mask h i (n + k) m
      ≡ copy_out ring mask h i n m ++ copy_out ring mask h (i + n) k m
unfolding copy_out
copy_out-append ring mask h i zero k m = rw (zero-add, add-zero)
copy_out-append ring mask h i (suc n) k m =
    ap (λ j. copy_out ring mask h i j m) {y = suc (n + k)} (omega arith)
    ∙ ap (λ l. m (ring + bit_and (add32 h i) mask) ∷ l)
        (copy_out-append ring mask h (i + 1) n k m
          ∙ ap (λ j. copy_out ring mask h (i + 1) n m ++ copy_out ring mask h j k m) (omega arith))

overwrite-append_self :
    (xs ys buf : List ℕ)
    → length ys ≤ length buf
    → overwrite (length xs) ys (xs ++ buf) ≡ xs ++ (ys ++ drop (length ys) buf)
unfolding overwrite
overwrite-append_self [] [] [] h = refl
overwrite-append_self [] [] (b ∷ buf) h = refl
overwrite-append_self [] (y ∷ ys) [] h = absurd (omega arith)
overwrite-append_self [] (y ∷ ys) (b ∷ buf) h =
    ap (λ l. y ∷ l) (overwrite-append_self [] ys buf (omega arith))
overwrite-append_self (x ∷ xs) ys buf h = ap (λ l. x ∷ l) (overwrite-append_self xs ys buf h)

load32-append : (xs ys : List ℕ) (i : ℕ) → i + 3 < length xs → load32 (xs ++ ys) i ≡ load32 xs i
load32-append xs ys i h = omega (
  arith,
  get_or-append xs ys i 0 (omega arith),
  get_or-append xs ys (i + 1) 0 (omega arith),
  get_or-append xs ys (i + 2) 0 (omega arith),
  get_or-append xs ys (i + 2 + 1) 0 (omega arith),
)

-- The two reads of a message `cmd` of at least a header, into a buffer that holds a header.
module _ (base mask h : ℕ) (m : Memory) (cmd buf : List ℕ) where
  unfoldable pub first_part : List ℕ
  first_part = overwrite 0 (copy_out base mask h 0 (min header_size (length buf)) m) buf

  module _ (read : copy_out base mask h 0 (length cmd) m ≡ cmd) (long : header_size ≤ length cmd)
      (fits : header_size ≤ length buf) where
    first : List ℕ
    first = copy_out base mask h 0 header_size m

    second : List ℕ
    second = copy_out base mask h header_size (length cmd - header_size) m

    parts : first ++ second ≡ cmd
    unfolding first second
    parts =
        sym (copy_out-append base mask h 0 header_size (length cmd - header_size) m)
        ∙ ap (λ n. copy_out base mask h 0 n m) (omega arith)
        ∙ read

    length-first : length first ≡ header_size
    unfolding first
    length-first = length-copy_out base mask h 0 header_size m

    length-second : length second ≡ length cmd - header_size
    unfolding second
    length-second = length-copy_out base mask h header_size (length cmd - header_size) m

    first_part-eq : first_part ≡ first ++ drop header_size buf
    unfolding first_part first
    first_part-eq =
        ap (λ n. overwrite 0 (copy_out base mask h 0 n m) buf) (omega arith)
        ∙ overwrite-append_self [] first buf (omega (arith, length-first))
        ∙ ap (λ n. first ++ drop n buf) length-first

    -- The size field in the buffer is that of the message.
    pub size_read : load32 first_part 4 ≡ load32 cmd 4
    size_read =
        ap (λ l. load32 l 4) first_part-eq
        ∙ load32-append first _ 4 (omega (arith, length-first))
        ∙ sym (load32-append first second 4 (omega (arith, length-first)))
        ∙ ap (λ l. load32 l 4) parts

    -- Both parts together put the message at the front of the buffer, and leave the rest.
    pub whole_read :
        length cmd ≤ length buf
        → overwrite header_size
            (copy_out base mask h header_size (length cmd - header_size) m)
            first_part
          ≡ cmd ++ drop (length cmd) buf
    unfolding second
    whole_read room =
        ap (overwrite header_size second) first_part-eq
        ∙ ap (λ n. overwrite n second (first ++ drop header_size buf)) (sym length-first)
        ∙ overwrite-append_self first second (drop header_size buf)
            (omega (arith, length-second, length-drop header_size buf))
        ∙ sym (append_assoc first second _)
        ∙ ap₂ ◌++◌ parts (
            ap (λ n. drop n (drop header_size buf)) length-second
            ∙ drop-drop header_size (length cmd - header_size) buf
            ∙ ap (λ n. drop n buf) (omega arith))

-- A channel that holds `cmd` and then `rest` gives `cmd` to the reading loop, and holds `rest` when
-- its head has moved over it.
pub take_front :
    (m : Memory) (base : ℕ) {size mask head tail : ℕ} (cmd rest : List ℕ)
    → IsChannel size mask head tail
    → held m base size mask head tail ≡ cmd ++ rest
    → let head' = bit_and (add32 head (length cmd)) mask in
      IsChannel size mask head' tail
      × (copy_out base mask head 0 (length cmd) m ≡ cmd)
      × (held m base size mask head' tail ≡ rest)
take_front m base {mask = mask} {head = head} {tail = tail} cmd rest v e =
    let within : length cmd ≤ used mask head tail =
      omega (arith, ap length e, length-held m base v, length-append cmd rest) in
    let (v', _, split) = dequeue m base v (length cmd) within in
    let (read, left) =
      append_injective _ cmd _ rest (length-copy_out base _ _ 0 (length cmd) m) (sym split ∙ e) in
    (v', read, left)
