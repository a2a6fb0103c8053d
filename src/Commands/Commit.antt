-- ===== src/Commands/Commit.antt =====
-- What a commit does, on each of its branches.
use gravity_gpu_project.Prelude.{
  ℕ, ◌≡◌, ◌⊎◌, refl, none, some, true, false, List, ◌∷◌, ◌++◌, inl, inr, arith, ◌<◌, ◌^◌,
}
use gravity_gpu_project.Protocol.Header.{IsWord, load_header, header_bytes}
use gravity_gpu_project.Ring.Memory.{Shm, Ring}
use gravity_gpu_project.Tracker.Resource.{of_cmdbuf, ResourceType, CmdbufResource}
use gravity_gpu_project.Tracker.Table.{get}
use gravity_gpu_project.Payload.System.{CmdCmdbufCommit, CmdCmdbufCompleted, load_cmdbuf_completed}
use gravity_gpu_project.Vulkan.Calls.{
  end_command_buffer, queue_submit, wait_for_fence, reset_fence, reset_command_buffer, Vulkan, Log,
}
use gravity_gpu_project.Vulkan.State.{VkState}
use gravity_gpu_project.Commands.Host.{Host, Machine, with_payload, as_cmdbuf, send}
use gravity_gpu_project.Commands.Cmdbuf.{
  process_cmdbuf_commit, commit_found, cmdbuf_entry, is_cmdbuf, submitted, cleaned_up, completion,
  completed_bytes,
}

-- the calls of a commit up to the end of its wait, the last one first
abbrev pub waited : VkState → CmdbufResource → Log → Log
waited vk c log =
    wait_for_fence c.fence
    ∷ (queue_submit vk.graphics_queue c.cmd_buf c.fence ∷ (end_command_buffer c.cmd_buf ∷ log))

module _ (vulkan : Vulkan) (machine : Machine) (vk : VkState) (ring : Ring) (cmd : CmdCmdbufCommit)
    (shm : Shm) where
  -- A commit of a handle that no entry has, or whose entry is no command buffer, changes nothing and
  -- sends nothing.
  pub commit-refused :
      (host : Host)
      → (get host.tracker cmd.handle ≡ none)
        ⊎ ((i : ℕ) × (get host.tracker cmd.handle ≡ some i)
            × (is_cmdbuf (host.tracker.entries i).type ≡ false))
      → process_cmdbuf_commit vulkan machine vk ring cmd shm host ≡ some (shm, host)
  unfolding process_cmdbuf_commit cmdbuf_entry commit_found
  commit-refused host (inl e) = rw (process_cmdbuf_commit, cmdbuf_entry, e) refl
  commit-refused host (inr (i, e, other)) = rw (process_cmdbuf_commit, cmdbuf_entry, e, other) refl

  module _ (host : Host) (i : ℕ) (c : CmdbufResource) (e : get host.tracker cmd.handle ≡ some i)
      (type : (host.tracker.entries i).type ≡ ResourceType.cmdbuf)
      (filled : (host.tracker.entries i).payload ≡ of_cmdbuf c) where
    pub commit-done :
        vulkan.signals (waited vk c host.log) c.fence ≡ true
        → process_cmdbuf_commit vulkan machine vk ring cmd shm host
          ≡ some (
            send ring shm (completed_bytes (completion cmd)),
            record {
              tracker = with_payload host.tracker i (of_cmdbuf (record c { recording = false }));
              log = reset_command_buffer c.cmd_buf ∷ (reset_fence c.fence ∷ waited vk c host.log);
            },
          )
    unfolding process_cmdbuf_commit cmdbuf_entry commit_found submitted cleaned_up as_cmdbuf
    commit-done ends =
        rw (process_cmdbuf_commit, cmdbuf_entry, e, type, commit_found, as_cmdbuf, filled, ends)
          refl

    -- A wait that never ends stops the daemon.
    pub commit-blocked :
        vulkan.signals (waited vk c host.log) c.fence ≡ false
        → process_cmdbuf_commit vulkan machine vk ring cmd shm host ≡ none
    unfolding process_cmdbuf_commit cmdbuf_entry commit_found submitted cleaned_up as_cmdbuf
    commit-blocked never =
        rw (process_cmdbuf_commit, cmdbuf_entry, e, type, commit_found, as_cmdbuf, filled, never)
          refl

-- The bytes of a completion, whose fields fit their widths, are read back as the completion, whatever
-- follows them.
pub load-completed_bytes :
    (c : CmdCmdbufCompleted) (rest : List ℕ)
    → IsWord c.hdr
    → c.handle < 2 ^ 32
    → c.status < 2 ^ 32
    → c.gpu_time_ns < 2 ^ 64
    → load_cmdbuf_completed (completed_bytes c ++ rest) ≡ c
unfolding load_cmdbuf_completed completed_bytes load_header header_bytes
load-completed_bytes c rest w h s g = ground arith
