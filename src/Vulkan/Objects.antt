-- ===== src/Vulkan/Objects.antt =====
-- The objects that a log of calls leaves alive.
use gravity_gpu_project.Prelude.{
  ℕ, ◌≡◌, refl, Bool, true, false, ◌&&◌, some, List, [], ◌∷◌, if◌then◌else◌, ◌==◌, arith,
}
use gravity_gpu_project.Vulkan.Calls.{
  Kind, an_instance, a_messenger, a_device, a_command_pool, a_pipeline_cache, a_descriptor_pool,
  a_buffer, a_memory, an_image, an_image_view, a_sampler, a_fence, a_cmd_buf, kind, Call,
  cmd_buf_info, create, destroy, Log,
}

-- a number for each kind; those below 6 are the kinds that `gravity_vk_state_t` names
abbrev pub rank : Kind → ℕ
rank an_instance = 0
rank a_messenger = 1
rank a_device = 2
rank a_command_pool = 3
rank a_pipeline_cache = 4
rank a_descriptor_pool = 5
rank a_buffer = 6
rank a_memory = 7
rank an_image = 8
rank an_image_view = 9
rank a_sampler = 10
rank a_fence = 11
rank a_cmd_buf = 12

abbrev pub Object : Type 0
Object = Kind × ℕ

unfoldable pub same_object : Object → Object → Bool
same_object (k, h) (k', h') = (rank k == rank k') && (h == h')

-- `objects` without the first occurrence of `o`
unfoldable pub without : Object → List Object → List Object
unfolding same_object
without o [] = []
without o (x ∷ objects) =
    let rest = without o objects in if same_object x o then objects else x ∷ rest

-- whether a command buffer has been allocated from a pool
unfoldable pub made_from : Log → ℕ → ℕ → Bool
made_from [] pool h = false
made_from (create (cmd_buf_info p) (some h') ∷ log) pool h =
    let earlier = made_from log pool h in if p == pool && h' == h then true else earlier
made_from (_ ∷ log) pool h = made_from log pool h

abbrev pub is_cmd_buf : Kind → Bool
is_cmd_buf a_cmd_buf = true
is_cmd_buf _ = false

-- the objects that stay when the command buffers of a pool are freed
unfoldable pub outside : Log → ℕ → List Object → List Object
unfolding made_from
outside log pool [] = []
outside log pool ((k, h) ∷ objects) =
    let rest = outside log pool objects in
    if is_cmd_buf k && made_from log pool h then rest else (k, h) ∷ rest

-- What a call behind the calls of a log changes. The destruction of a pool frees its command buffers.
unfoldable pub after_call : Call → Log → List Object → List Object
unfolding kind without outside
after_call (create info (some h)) log objects = (kind info, h) ∷ objects
after_call (destroy a_command_pool h) log objects =
    without (a_command_pool, h) (outside log h objects)
after_call (destroy k h) log objects = without (k, h) objects
after_call _ log objects = objects

-- the objects created and not destroyed, the last one first
unfoldable pub alive : Log → List Object
unfolding after_call
alive [] = []
alive (c ∷ log) = after_call c log (alive log)

same_object_refl : (o : Object) → same_object o o ≡ true
unfolding same_object
same_object_refl (k, h) = ground arith

pub without-last : (o : Object) (objects : List Object) → without o (o ∷ objects) ≡ objects
unfolding without
without-last o objects = rw (same_object_refl o) refl
