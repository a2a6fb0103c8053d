-- ===== src/Vulkan/Remains.antt =====
-- What `gravity_vk_destroy` leaves alive of the objects that commands have made.
use gravity_gpu_project.Prelude.{
  Bool-cases, inl, inr, ℕ, ◌≤◌, ◌<◌, ◌≡◌, ◌≢◌, refl, ap, ◌∙◌, Bool, true, false, ◌&&◌, List, [],
  ◌∷◌, ◌++◌, if◌then◌else◌, arith,
}
use gravity_gpu_project.Vulkan.Calls.{Kind, a_command_pool, Log, device_wait_idle, destroy}
use gravity_gpu_project.Vulkan.Objects.{
  Object, rank, same_object, without, after_call, alive, made_from, is_cmd_buf, outside,
}
use gravity_gpu_project.Vulkan.State.{VkState}
use gravity_gpu_project.Vulkan.Destroy.{destroy_if}

-- none of the objects is of a kind that the state names
abbrev pub AllOfCommands : List Object → Type 0
AllOfCommands [] = Unit {0}
AllOfCommands (o ∷ objects) = (6 ≤ rank o.0) × AllOfCommands objects

-- the state after a start that has made all its objects
pub record Named (st : VkState) : Type 0 where
  pub device : st.device ≢ 0
  pub instance_handle : st.instance_handle ≢ 0
  pub graphics : st.graphics_cmd_pool ≢ 0
  pub compute : st.compute_cmd_pool ≢ 0
  pub transfer : st.transfer_cmd_pool ≢ 0
  pub compute_apart : st.compute_cmd_pool ≢ st.graphics_cmd_pool
  pub transfer_apart : st.transfer_cmd_pool ≢ st.graphics_cmd_pool
  pub transfer_alone : st.transfer_cmd_pool ≢ st.compute_cmd_pool

apart : (k k' : Kind) (h h' : ℕ) → 6 ≤ rank k → rank k' < 6 → same_object (k, h) (k', h') ≡ false
unfolding same_object
apart k k' h h' e e' = ground arith

without-behind :
    (made objects : List Object) (k : Kind) (h : ℕ)
    → AllOfCommands made
    → rank k < 6
    → without (k, h) (made ++ objects) ≡ made ++ without (k, h) objects
unfolding without
without-behind [] objects k h all e = refl
without-behind ((k', h') ∷ made) objects k h (a, all) e =
    rw (apart k' k h' h a e, without-behind made objects k h all e) refl

unfoldable pub AllOfState : List Object → Type 0
AllOfState [] = Unit {0}
AllOfState (o ∷ objects) = (rank o.0 < 6) × AllOfState objects

without-AllOfState :
    (o : Object) (objects : List Object) → AllOfState objects → AllOfState (without o objects)
unfolding without AllOfState
without-AllOfState o [] all = tt
without-AllOfState o (x ∷ objects) (a, all) = elim (Bool-cases (same_object x o)) [
  | inl e ↦ rw (without, e) all
  | inr e ↦ rw (without, e) (a, without-AllOfState o objects all)
]

no_cmd_buf : (k : Kind) → rank k < 6 → is_cmd_buf k ≡ false
no_cmd_buf k e = ground arith

outside-AllOfState :
    (log : Log) (pool : ℕ) (objects : List Object)
    → AllOfState objects
    → outside log pool objects ≡ objects
unfolding outside AllOfState
outside-AllOfState log pool [] all = refl
outside-AllOfState log pool ((k, h) ∷ objects) (a, all) =
    rw (outside, no_cmd_buf k a, outside-AllOfState log pool objects all) refl

outside-append :
    (log : Log) (pool : ℕ) (made objects : List Object)
    → outside log pool (made ++ objects) ≡ outside log pool made ++ outside log pool objects
unfolding outside
outside-append log pool [] objects = refl
outside-append log pool ((k, h) ∷ made) objects =
    elim (Bool-cases (is_cmd_buf k && made_from log pool h)) [
      | inl e ↦ rw (outside, e) (outside-append log pool made objects)
      | inr e ↦ rw (outside, e) (ap (λ l. (k, h) ∷ l) (outside-append log pool made objects))
    ]

outside-AllOfCommands :
    (log : Log) (pool : ℕ) (made : List Object)
    → AllOfCommands made
    → AllOfCommands (outside log pool made)
unfolding outside
outside-AllOfCommands log pool [] all = tt
outside-AllOfCommands log pool ((k, h) ∷ made) (a, all) =
    elim (Bool-cases (is_cmd_buf k && made_from log pool h)) [
      | inl e ↦ rw (outside, e) (outside-AllOfCommands log pool made all)
      | inr e ↦ rw (outside, e) (a, outside-AllOfCommands log pool made all)
    ]

-- two logs in which the same command buffers were allocated
unfoldable pub SameOrigin : Log → Log → Type 0
SameOrigin log src = (pool h : ℕ) → made_from log pool h ≡ made_from src pool h

outside-origin :
    (log src : Log) (pool : ℕ) (objects : List Object)
    → SameOrigin log src
    → outside log pool objects ≡ outside src pool objects
unfolding outside SameOrigin
outside-origin log src pool [] o = refl
outside-origin log src pool ((k, h) ∷ objects) o =
    rw (outside, o pool h, outside-origin log src pool objects o) refl

-- Alive are objects that commands have made, and then objects of the state.
pub record Beside (src : Log) (made : List Object) (log : Log) (rest : List Object) : Type 0 where
  pub remain : alive log ≡ made ++ rest
  pub of_commands : AllOfCommands made
  pub of_state : AllOfState rest
  pub origin : SameOrigin log src

abbrev pub rest_if : Bool → Kind → ℕ → List Object → List Object
rest_if test k h rest = if test then without (k, h) rest else rest

abbrev pub freed_if : Log → Bool → ℕ → List Object → List Object
freed_if src test h made = if test then outside src h made else made

module _ (src : Log) where
  pub pool_destroyed :
      (test : Bool) (h : ℕ) {made rest : List Object} {log : Log}
      → Beside src made log rest
      → Beside src
          (freed_if src test h made)
          (destroy_if test a_command_pool h log)
          (rest_if test a_command_pool h rest)
  unfolding alive after_call SameOrigin made_from
  pool_destroyed false h b = b
  pool_destroyed true h {made} {rest} {log} b = record {
    remain =
        ap (λ l. without (a_command_pool, h) (outside log h l)) b.remain
        ∙ ap (without (a_command_pool, h)) (
            outside-append log h made rest
            ∙ ap (λ l. outside log h made ++ l) (outside-AllOfState log h rest b.of_state)
            ∙ ap (λ l. l ++ rest) (outside-origin log src h made b.origin))
        ∙ without-behind (outside src h made) rest a_command_pool h
            (outside-AllOfCommands src h made b.of_commands) (omega arith);
    of_commands = outside-AllOfCommands src h made b.of_commands;
    of_state = without-AllOfState (a_command_pool, h) rest b.of_state;
    origin = b.origin;
  }

  -- a kind whose destruction takes nothing else along
  unfoldable pub IsPlain : Kind → Type 0
  IsPlain k =
      (h : ℕ) (log : Log) (objects : List Object)
      → after_call (destroy k h) log objects ≡ without (k, h) objects

  pub plain_destroyed :
      (k : Kind) (test : Bool) (h : ℕ) {made rest : List Object} {log : Log}
      → rank k < 6
      → IsPlain k
      → Beside src made log rest
      → Beside src made (destroy_if test k h log) (rest_if test k h rest)
  unfolding alive SameOrigin made_from IsPlain
  plain_destroyed k false h low plain b = b
  plain_destroyed k true h {made} {rest} {log} low plain b = record {
    remain =
        plain h log (alive log)
        ∙ ap (without (k, h)) b.remain
        ∙ without-behind made rest k h b.of_commands low;
    of_commands = b.of_commands;
    of_state = without-AllOfState (k, h) rest b.of_state;
    origin = b.origin;
  }

  pub idle :
      {made rest : List Object} {log : Log}
      → Beside src made log rest
      → Beside src made (device_wait_idle ∷ log) rest
  unfolding alive after_call SameOrigin made_from
  idle b = record {
    remain = b.remain;
    of_commands = b.of_commands;
    of_state = b.of_state;
    origin = b.origin;
  }
