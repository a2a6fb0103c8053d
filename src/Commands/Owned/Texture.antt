-- ===== src/Commands/Owned/Texture.antt =====
-- The objects of `gravity_cmd_process_create_texture`, on every path.
use gravity_gpu_project.Prelude.{
  ℕ, ◌≡◌, refl, ap, ◌∙◌, inl, inr, none, some, List, ◌∷◌, Option-cases, Bool-cases, Option, ◌==◌,
}
use gravity_gpu_project.Tracker.Resource.{ResourceType}
use gravity_gpu_project.Tracker.Table.{add}
use gravity_gpu_project.Formats.Vulkan.{vk_format, gvk_undefined}
use gravity_gpu_project.Payload.Create.{CmdCreateTexture}
use gravity_gpu_project.Vulkan.Calls.{
  Vulkan, a_memory, bind_memory, image_view_info, an_image, an_image_view, kind,
}
use gravity_gpu_project.Vulkan.Objects.{Object, alive, after_call, without, without-last}
use gravity_gpu_project.Vulkan.State.{VkState}
use gravity_gpu_project.Commands.Host.{Host, call}
use gravity_gpu_project.Commands.Texture.{
  track_texture, view_texture, view_answered, memory_answered, image_answered, allocate_texture,
  view_info, view_texture, process_create_texture, format,
}
use gravity_gpu_project.Commands.Owned.{
  owned, Accounted, drop_two, drop_three, opened, alive_created,
}

module _ (vulkan : Vulkan) (vk : VkState) (cmd : CmdCreateTexture) (objects : List Object) where
  track_texture-Accounted :
      (host : Host) (image memory image_view : ℕ)
      → alive host.log
        ≡ (an_image_view, image_view) ∷ (a_memory, memory) ∷ (an_image, image) ∷ objects
      → Accounted host.tracker objects cmd.handle ResourceType.texture
          (track_texture vulkan vk cmd host image memory image_view)
  unfolding track_texture alive after_call owned
  track_texture-Accounted host image memory image_view e =
      elim (Option-cases (add host.tracker cmd.handle ResourceType.texture)) [
        | inl none_added ↦ rw (track_texture, none_added) (inl (refl, drop_three _ _ _ objects e))
        | inr ((i, t), done) ↦ rw (track_texture, done) (inr (i, t, _, refl, refl, e))
      ]

  view_answered-Accounted :
      (host : Host) (image memory : ℕ) (answer : Option ℕ)
      → alive host.log
        ≡ opened an_image_view answer ((a_memory, memory) ∷ (an_image, image) ∷ objects)
      → Accounted host.tracker objects cmd.handle ResourceType.texture
          (view_answered vulkan vk cmd host image memory answer)
  unfolding view_answered alive after_call
  view_answered-Accounted host image memory none e = inl (refl, drop_two _ _ objects e)
  view_answered-Accounted host image memory (some view) e =
      track_texture-Accounted host image memory view e

  view_texture-Accounted :
      (host : Host) (image memory : ℕ)
      → alive host.log ≡ (a_memory, memory) ∷ (an_image, image) ∷ objects
      → Accounted host.tracker objects cmd.handle ResourceType.texture
          (view_texture vulkan vk cmd host image memory)
  unfolding view_texture kind
  view_texture-Accounted host image memory e =
      let request = image_view_info (view_info vulkan vk cmd image) in
      view_answered-Accounted _ image memory _
        (alive_created request (vulkan.creates host.log request) host.log e)

  memory_answered-Accounted :
      (host : Host) (image : ℕ) (answer : Option ℕ)
      → alive host.log ≡ opened a_memory answer ((an_image, image) ∷ objects)
      → Accounted host.tracker objects cmd.handle ResourceType.texture
          (memory_answered vulkan vk cmd host image answer)
  unfolding memory_answered alive after_call
  memory_answered-Accounted host image none e =
      inl (refl, ap (without (an_image, image)) e ∙ without-last (an_image, image) objects)
  memory_answered-Accounted host image (some memory) e =
      view_texture-Accounted (call host (bind_memory an_image image memory)) image memory e

  image_answered-Accounted :
      (host : Host) (answer : Option ℕ)
      → alive host.log ≡ opened an_image answer objects
      → Accounted host.tracker objects cmd.handle ResourceType.texture
          (image_answered vulkan vk cmd host answer)
  unfolding image_answered allocate_texture kind
  image_answered-Accounted host none e = inl (refl, e)
  image_answered-Accounted host (some image) e =
      memory_answered-Accounted _ image _ (alive_created _ _ host.log e)

-- Whatever the Vulkan library answers, `gravity_cmd_process_create_texture` leaks nothing: either
-- the tracker and the objects alive are those of before, or an entry has been added for the
-- handle and exactly the image, the memory and the view that it holds are alive besides.
pub process_create_texture-Accounted :
    (vulkan : Vulkan) (vk : VkState) (cmd : CmdCreateTexture) (host : Host)
    → Accounted host.tracker
        (alive host.log)
        cmd.handle
        ResourceType.texture
        (process_create_texture vulkan vk cmd host)
unfolding process_create_texture kind
process_create_texture-Accounted vulkan vk cmd host =
    elim (Bool-cases (format vulkan vk cmd == vk_format gvk_undefined)) [
      | inl e ↦ rw e (inl (refl, refl))
      | inr e ↦ rw e (
          image_answered-Accounted vulkan vk cmd (alive host.log) _ _
            (alive_created _ _ host.log refl))
    ]
