-- ===== src/Daemon/Forget.antt =====
-- The commands that destroy a resource.
use gravity_gpu_project.Prelude.{
  ℕ, ◌≢◌, ◌+◌, none, ◌∷◌, ◌≡◌, refl, ◌∙◌, Bool, true, false, some, List, load32, arith,
}
use gravity_gpu_project.Protocol.Opcode.{opcode}
use gravity_gpu_project.Protocol.Header.{CmdHeader}
use gravity_gpu_project.Ring.Memory.{Shm, Ring}
use gravity_gpu_project.Tracker.Table.{remove, get, count}
use gravity_gpu_project.Tracker.Free.{IsTracker}
use gravity_gpu_project.Tracker.Lookup.{remove_lem}
use gravity_gpu_project.Vulkan.Objects.{alive}
use gravity_gpu_project.Payload.Create.{
  load_destroy_buffer, load_destroy_texture, load_destroy_sampler,
}
use gravity_gpu_project.Vulkan.Calls.{Vulkan}
use gravity_gpu_project.Vulkan.State.{VkState}
use gravity_gpu_project.Commands.Host.{Host, Machine}
use gravity_gpu_project.Daemon.Dispatch.{Label, label_op, run_label, process_command}
use gravity_gpu_project.Daemon.Answer.{process_command-label}

abbrev pub is_destroy : Label → Bool
is_destroy Label.destroy_buffer = true
is_destroy Label.destroy_texture = true
is_destroy Label.destroy_sampler = true
is_destroy _ = false

module _ (vulkan : Vulkan) (machine : Machine) (vk : VkState) (ring : Ring) where
  forgets :
      (l : Label) (hdr : CmdHeader) (buf : List ℕ) (shm : Shm) (host : Host)
      → is_destroy l ≡ true
      → run_label vulkan machine vk ring l hdr buf shm host
        ≡ some (shm, record host { tracker = remove host.tracker (load32 buf 16) })
  unfolding run_label load_destroy_buffer load_destroy_texture load_destroy_sampler
  forgets Label.hello hdr buf shm host e = absurd (ground arith)
  forgets Label.ping hdr buf shm host e = absurd (ground arith)
  forgets Label.create_buffer hdr buf shm host e = absurd (ground arith)
  forgets Label.destroy_buffer hdr buf shm host e = refl
  forgets Label.create_texture hdr buf shm host e = absurd (ground arith)
  forgets Label.destroy_texture hdr buf shm host e = refl
  forgets Label.create_sampler hdr buf shm host e = absurd (ground arith)
  forgets Label.destroy_sampler hdr buf shm host e = refl
  forgets Label.create_shader hdr buf shm host e = absurd (ground arith)
  forgets Label.create_render_pipeline hdr buf shm host e = absurd (ground arith)
  forgets Label.create_depth_stencil hdr buf shm host e = absurd (ground arith)
  forgets Label.cmdbuf_create hdr buf shm host e = absurd (ground arith)
  forgets Label.cmdbuf_commit hdr buf shm host e = absurd (ground arith)
  forgets (Label.render r) hdr buf shm host e = absurd (ground arith)

  -- In a well-formed tracker, a command that destroys a buffer, a texture or a sampler, with a
  -- handle that is found, of whatever kind, takes the handle off the tracker: it is not found
  -- afterwards, its entry is the first of the free list, no other entry changes and the count
  -- falls by one. All the Vulkan objects of the resource stay alive.
  pub destroy-forgets :
      (l : Label) (hdr : CmdHeader) (buf : List ℕ) (shm : Shm) (host : Host) {free : List ℕ}
      (idx : ℕ)
      → is_destroy l ≡ true
      → hdr.opcode ≡ opcode (label_op l)
      → IsTracker host.tracker free
      → get host.tracker (load32 buf 16) ≡ some idx
      → (host' : Host) × (process_command vulkan machine vk ring hdr buf shm host
          ≡ some (shm, host'))
        × (get host'.tracker (load32 buf 16) ≡ none)
        × IsTracker host'.tracker (idx ∷ free)
        × (count host'.tracker + 1 ≡ count host.tracker)
        × ((j : ℕ) → idx ≢ j → host'.tracker.entries j ≡ host.tracker.entries j)
        × (alive host'.log ≡ alive host.log)
  destroy-forgets l hdr buf shm host idx e at v g =
      let (v', fewer, others, gone) = remove_lem v (load32 buf 16) idx g in
      (
        record host { tracker = remove host.tracker (load32 buf 16) },
        process_command-label vulkan machine vk ring l hdr buf shm host at
            ∙ forgets l hdr buf shm host e,
        gone,
        v',
        fewer,
        others,
        refl,
      )
