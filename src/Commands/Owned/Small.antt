-- ===== src/Commands/Owned/Small.antt =====
-- The objects of `gravity_cmd_process_create_sampler` and `gravity_cmd_process_cmdbuf_create`.
use gravity_gpu_project.Prelude.{
  ℕ, ◌≡◌, refl, ap, ◌∙◌, inl, inr, Option, none, some, List, ◌∷◌, Option-cases,
}
use gravity_gpu_project.Tracker.Resource.{ResourceType}
use gravity_gpu_project.Tracker.Table.{add}
use gravity_gpu_project.Payload.Create.{CmdCreateSampler}
use gravity_gpu_project.Payload.System.{CmdCmdbufCreate}
use gravity_gpu_project.Vulkan.Calls.{
  Vulkan, a_sampler, a_fence, a_cmd_buf, kind, begin_command_buffer,
}
use gravity_gpu_project.Vulkan.Objects.{Object, alive, after_call, without, without-last}
use gravity_gpu_project.Vulkan.State.{VkState}
use gravity_gpu_project.Commands.Host.{Host, Machine, call}
use gravity_gpu_project.Commands.Simple.{track_sampler, sampler_answered, process_create_sampler}
use gravity_gpu_project.Commands.Cmdbuf.{
  track_cmdbuf, fence_answered, cmdbuf_answered, process_cmdbuf_create,
}
use gravity_gpu_project.Commands.Owned.{owned, Accounted, drop_two, opened, alive_created}

track_sampler-Accounted :
    (cmd : CmdCreateSampler) (objects : List Object) (host : Host) (sampler : ℕ)
    → alive host.log ≡ (a_sampler, sampler) ∷ objects
    → Accounted host.tracker objects cmd.handle ResourceType.sampler
        (track_sampler cmd host sampler)
unfolding track_sampler alive after_call owned
track_sampler-Accounted cmd objects host sampler e =
    elim (Option-cases (add host.tracker cmd.handle ResourceType.sampler)) [
      | inl none_added ↦
          rw (track_sampler, none_added)
            (inl (
              refl,
              ap (without (a_sampler, sampler)) e ∙ without-last (a_sampler, sampler) objects,
            ))
      | inr ((i, t), done) ↦ rw (track_sampler, done) (inr (i, t, _, refl, refl, e))
    ]

sampler_answered-Accounted :
    (cmd : CmdCreateSampler) (objects : List Object) (host : Host) (answer : Option ℕ)
    → alive host.log ≡ opened a_sampler answer objects
    → Accounted host.tracker objects cmd.handle ResourceType.sampler
        (sampler_answered cmd host answer)
unfolding sampler_answered
sampler_answered-Accounted cmd objects host none e = inl (refl, e)
sampler_answered-Accounted cmd objects host (some sampler) e =
    track_sampler-Accounted cmd objects host sampler e

-- Whatever the Vulkan library answers, `gravity_cmd_process_create_sampler` leaks nothing: either the
-- tracker and the objects alive are those of before, or an entry has been added for the handle and
-- exactly the sampler that it holds is alive besides.
pub process_create_sampler-Accounted :
    (vulkan : Vulkan) (machine : Machine) (cmd : CmdCreateSampler) (host : Host)
    → Accounted host.tracker
        (alive host.log)
        cmd.handle
        ResourceType.sampler
        (process_create_sampler vulkan machine cmd host)
unfolding process_create_sampler kind
process_create_sampler-Accounted vulkan machine cmd host =
    sampler_answered-Accounted cmd (alive host.log) _ _ (alive_created _ _ host.log refl)

module _ (cmd : CmdCmdbufCreate) (objects : List Object) where
  track_cmdbuf-Accounted :
      (host : Host) (cmd_buf fence : ℕ)
      → alive host.log ≡ (a_fence, fence) ∷ (a_cmd_buf, cmd_buf) ∷ objects
      → Accounted host.tracker objects cmd.handle ResourceType.cmdbuf
          (track_cmdbuf cmd host cmd_buf fence)
  unfolding track_cmdbuf alive after_call owned
  track_cmdbuf-Accounted host cmd_buf fence e =
      elim (Option-cases (add host.tracker cmd.handle ResourceType.cmdbuf)) [
        | inl none_added ↦ rw (track_cmdbuf, none_added) (inl (refl, drop_two _ _ objects e))
        | inr ((i, t), done) ↦ rw (track_cmdbuf, done) (inr (i, t, _, refl, refl, e))
      ]

  fence_answered-Accounted :
      (host : Host) (cmd_buf : ℕ) (answer : Option ℕ)
      → alive host.log ≡ opened a_fence answer ((a_cmd_buf, cmd_buf) ∷ objects)
      → Accounted host.tracker objects cmd.handle ResourceType.cmdbuf
          (fence_answered cmd host cmd_buf answer)
  unfolding fence_answered alive after_call
  fence_answered-Accounted host cmd_buf none e =
      inl (refl, ap (without (a_cmd_buf, cmd_buf)) e ∙ without-last (a_cmd_buf, cmd_buf) objects)
  fence_answered-Accounted host cmd_buf (some fence) e =
      track_cmdbuf-Accounted (call host (begin_command_buffer cmd_buf)) cmd_buf fence e

  cmdbuf_answered-Accounted :
      (vulkan : Vulkan) (host : Host) (answer : Option ℕ)
      → alive host.log ≡ opened a_cmd_buf answer objects
      → Accounted host.tracker objects cmd.handle ResourceType.cmdbuf
          (cmdbuf_answered vulkan cmd host answer)
  unfolding cmdbuf_answered kind
  cmdbuf_answered-Accounted vulkan host none e = inl (refl, e)
  cmdbuf_answered-Accounted vulkan host (some cmd_buf) e =
      fence_answered-Accounted _ cmd_buf _ (alive_created _ _ host.log e)

-- Whatever the Vulkan library answers, `gravity_cmd_process_cmdbuf_create` leaks nothing: either the
-- tracker and the objects alive are those of before, or an entry has been added for the handle and
-- exactly the command buffer and the fence that it holds are alive besides.
pub process_cmdbuf_create-Accounted :
    (vulkan : Vulkan) (vk : VkState) (cmd : CmdCmdbufCreate) (host : Host)
    → Accounted host.tracker
        (alive host.log)
        cmd.handle
        ResourceType.cmdbuf
        (process_cmdbuf_create vulkan vk cmd host)
unfolding process_cmdbuf_create kind
process_cmdbuf_create-Accounted vulkan vk cmd host =
    cmdbuf_answered-Accounted cmd (alive host.log) vulkan _ _ (alive_created _ _ host.log refl)
