-- ===== src/Commands/Owned/Buffer.antt =====
-- The objects of `gravity_cmd_process_create_buffer`, on every path.
use gravity_gpu_project.Prelude.{
  ℕ, ◌≡◌, refl, ap, ap₂, sym, ◌∙◌, inl, inr, Option, none, some, List, ◌∷◌, Option-cases,
  Bool-cases, ltb, ◌&&◌, ◌==◌, not, ◌||◌,
}
use gravity_gpu_project.Ring.Memory.{Shm, Ring}
use gravity_gpu_project.Ring.Region.{data_ptr}
use gravity_gpu_project.Tracker.Resource.{BufferResource, of_buffer, ResourceType}
use gravity_gpu_project.Tracker.Table.{add}
use gravity_gpu_project.Formats.Metal.{storage_mode, storage_shared, storage_managed}
use gravity_gpu_project.Payload.Create.{CmdCreateBuffer}
use gravity_gpu_project.Vulkan.Calls.{Vulkan, a_buffer, a_memory, kind, bind_memory}
use gravity_gpu_project.Vulkan.Objects.{Object, alive, after_call, without, without-last}
use gravity_gpu_project.Vulkan.State.{VkState}
use gravity_gpu_project.Commands.Host.{Host, with_payload, call}
use gravity_gpu_project.Commands.Buffer.{
  copy_initial, map_shared, fill_buffer, track_buffer, memory_answered, allocate_buffer,
  buffer_answered, process_create_buffer,
}
use gravity_gpu_project.Commands.Owned.{owned, Accounted, drop_two, opened, alive_created}

-- the tracker and the objects alive are the same
abbrev Quiet : Host → Host → Type 0
Quiet host host' = (host'.tracker ≡ host.tracker) × (alive host'.log ≡ alive host.log)

module _ (vulkan : Vulkan) (vk : VkState) (ring : Ring) (shm : Shm) (cmd : CmdCreateBuffer) where
  copy_initial-Quiet :
      (host : Host) (mapped : ℕ) → Quiet host (copy_initial vulkan vk ring shm cmd host mapped)
  unfolding copy_initial alive after_call
  copy_initial-Quiet host mapped =
      elim (Bool-cases (ltb 0 cmd.data_offset && (ltb 0 cmd.data_size && not (mapped == 0)))) [
        | inr e ↦ rw e (refl, refl)
        | inl e ↦ elim (Option-cases (data_ptr ring shm cmd.data_offset)) [
          | inl f ↦ rw (e, f) (refl, refl)
          | inr (src, f) ↦ rw (e, f) (refl, refl)
        ]
      ]

  map_shared-Quiet :
      (host : Host) (memory : ℕ) → Quiet host (map_shared vulkan vk ring shm cmd host memory).0
  unfolding map_shared alive after_call
  map_shared-Quiet host memory =
      elim (Bool-cases (
        cmd.storage_mode == storage_mode storage_shared
        || cmd.storage_mode == storage_mode storage_managed)) [
          | inl e ↦ rw e (refl, refl)
          | inr e ↦ rw e (refl, refl)
        ]

  fill_buffer-filled :
      (host : Host) (i buffer memory : ℕ)
      → (p : BufferResource) × (p.buffer ≡ buffer)
        × (p.memory ≡ memory)
        × ((fill_buffer vulkan vk ring shm cmd host i buffer memory).tracker
            ≡ with_payload host.tracker i (of_buffer p))
        × (alive (fill_buffer vulkan vk ring shm cmd host i buffer memory).log ≡ alive host.log)
  unfolding fill_buffer
  fill_buffer-filled host i buffer memory =
      let (host₁, mapped) = map_shared vulkan vk ring shm cmd host memory in
      let (kept, same) = map_shared-Quiet host memory in
      let p : BufferResource = record {
        buffer = buffer;
        memory = memory;
        size = cmd.size;
        mapped = mapped;
      } in
      let filled : Host = record host₁ { tracker = with_payload host₁.tracker i (of_buffer p) } in
      let (kept', same') = copy_initial-Quiet filled mapped in
      (p, refl, refl, kept' ∙ ap (λ t. with_payload t i (of_buffer p)) kept, same' ∙ same)

  track_buffer-Accounted :
      (objects : List Object) (host : Host) (buffer memory : ℕ)
      → alive host.log ≡ (a_memory, memory) ∷ (a_buffer, buffer) ∷ objects
      → Accounted host.tracker objects cmd.handle ResourceType.buffer
          (track_buffer vulkan vk ring shm cmd host buffer memory)
  unfolding track_buffer alive after_call owned
  track_buffer-Accounted objects host buffer memory e =
      elim (Option-cases (add host.tracker cmd.handle ResourceType.buffer)) [
        | inl none_added ↦ rw (track_buffer, none_added) (inl (refl, drop_two _ _ objects e))
        | inr ((i, t), done) ↦
            let (p, b, m, tracked, same) =
              fill_buffer-filled (record host { tracker = t }) i buffer memory in
            rw (track_buffer, done)
              (inr (
                i,
                t,
                of_buffer p,
                refl,
                tracked,
                same ∙ e ∙ ap₂ (λ x y. (a_memory, x) ∷ (a_buffer, y) ∷ objects) (sym m) (sym b),
              ))
      ]

  memory_answered-Accounted :
      (objects : List Object) (host : Host) (buffer : ℕ) (answer : Option ℕ)
      → alive host.log ≡ opened a_memory answer ((a_buffer, buffer) ∷ objects)
      → Accounted host.tracker objects cmd.handle ResourceType.buffer
          (memory_answered vulkan vk ring shm cmd host buffer answer)
  unfolding memory_answered alive after_call
  memory_answered-Accounted objects host buffer none e =
      inl (refl, ap (without (a_buffer, buffer)) e ∙ without-last (a_buffer, buffer) objects)
  memory_answered-Accounted objects host buffer (some memory) e =
      track_buffer-Accounted objects (call host (bind_memory a_buffer buffer memory)) buffer memory
        e

  buffer_answered-Accounted :
      (objects : List Object) (host : Host) (answer : Option ℕ)
      → alive host.log ≡ opened a_buffer answer objects
      → Accounted host.tracker objects cmd.handle ResourceType.buffer
          (buffer_answered vulkan vk ring shm cmd host answer)
  unfolding buffer_answered allocate_buffer kind
  buffer_answered-Accounted objects host none e = inl (refl, e)
  buffer_answered-Accounted objects host (some buffer) e =
      memory_answered-Accounted objects _ buffer _ (alive_created _ _ host.log e)

-- Whatever the Vulkan library answers, `gravity_cmd_process_create_buffer` leaks nothing: either
-- the tracker and the objects alive are those of before, or an entry has been added for the
-- handle and exactly the buffer and the memory that it holds are alive besides.
pub process_create_buffer-Accounted :
    (vulkan : Vulkan) (vk : VkState) (ring : Ring) (shm : Shm) (cmd : CmdCreateBuffer) (host : Host)
    → Accounted host.tracker
        (alive host.log)
        cmd.handle
        ResourceType.buffer
        (process_create_buffer vulkan vk ring shm cmd host)
unfolding process_create_buffer kind
process_create_buffer-Accounted vulkan vk ring shm cmd host =
    buffer_answered-Accounted vulkan vk ring shm cmd (alive host.log) _ _
      (alive_created _ _ host.log refl)
