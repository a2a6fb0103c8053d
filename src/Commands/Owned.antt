-- ===== src/Commands/Owned.antt =====
-- The Vulkan objects of the entries: what a handler creates is either destroyed again or held by the
-- entry that it adds.
pub mod Texture
pub mod Buffer
pub mod Small
use gravity_gpu_project.Prelude.{
  ℕ, ◌≡◌, refl, ap, ◌∙◌, ◌⊎◌, inl, inr, Option, none, some, List, [], ◌∷◌, ◌++◌, Option-cases,
  Bool-cases, arith, true, false, if◌then◌else◌,
}
use gravity_gpu_project.Tracker.Resource.{
  Payload, of_buffer, of_texture, of_sampler, of_cmdbuf, ResourceType,
}
use gravity_gpu_project.Tracker.Table.{Tracker, add}
use gravity_gpu_project.Payload.Create.{CmdCreateTexture}
use gravity_gpu_project.Vulkan.Calls.{
  Vulkan, a_buffer, a_memory, an_image, an_image_view, a_sampler, a_fence, a_cmd_buf, Kind,
  CreateInfo, Log, create, kind,
}
use gravity_gpu_project.Vulkan.Objects.{Object, alive, after_call, without, without-last}
use gravity_gpu_project.Vulkan.State.{VkState}
use gravity_gpu_project.Commands.Host.{Host, with_payload}
use gravity_gpu_project.Commands.Texture.{track_texture}

-- the objects that an entry's union holds
unfoldable pub owned : Payload → List Object
owned (of_buffer r) = (a_memory, r.memory) ∷ (a_buffer, r.buffer) ∷ []
owned (of_texture r) =
    (an_image_view, r.image_view) ∷ (a_memory, r.memory) ∷ (an_image, r.image) ∷ []
owned (of_sampler sampler) = (a_sampler, sampler) ∷ []
owned (of_cmdbuf r) = (a_fence, r.fence) ∷ (a_cmd_buf, r.cmd_buf) ∷ []
owned _ = []

-- From a tracker and objects alive: either neither changes, or an entry is added for the handle, and
-- exactly the objects that it holds are alive besides.
abbrev pub Accounted : Tracker → List Object → ℕ → ResourceType → Host → Type 0
Accounted tracker objects handle type host =
    ((host.tracker ≡ tracker) × (alive host.log ≡ objects))
    ⊎ ((i : ℕ) × (added : Tracker) × (p : Payload) × (add tracker handle type ≡ some (i, added))
        × (host.tracker ≡ with_payload added i p)
        × (alive host.log ≡ owned p ++ objects))

pub drop_two :
    (a b : Object) (objects : List Object) {all : List Object}
    → all ≡ a ∷ b ∷ objects
    → without b (without a all) ≡ objects
drop_two a b objects e =
    rw e (ap (without b) (without-last a (b ∷ objects)) ∙ without-last b objects)

pub drop_three :
    (a b c : Object) (objects : List Object) {all : List Object}
    → all ≡ a ∷ b ∷ c ∷ objects
    → without c (without b (without a all)) ≡ objects
drop_three a b c objects e = ap (without c) (drop_two a b (c ∷ objects) e) ∙ without-last c objects

-- the objects alive behind a creation with an answer
abbrev pub opened : Kind → Option ℕ → List Object → List Object
opened k none objects = objects
opened k (some h) objects = (k, h) ∷ objects

pub alive_created :
    (info : CreateInfo) (answer : Option ℕ) (log : Log) {objects : List Object}
    → alive log ≡ objects
    → alive (create info answer ∷ log) ≡ opened (kind info) answer objects
unfolding alive after_call kind
alive_created info none log e = e
alive_created info (some h) log e = ap (λ l. (kind info, h) ∷ l) e
