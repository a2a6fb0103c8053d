-- ===== src/Daemon/Quiet.antt =====
-- What `process_command` does to the shared region: at most one completion is appended.
use gravity_gpu_project.Prelude.{
  ℕ, ◌≡◌, ◌≤◌, Bool, true, false, if◌then◌else◌, refl, ap, subst, inl, inr, Option, none, some,
  List, Option-cases, none_ne_some,
}
use mathlib.Core.Option.{some-injective}
use gravity_gpu_project.Protocol.Header.{CmdHeader}
use gravity_gpu_project.Ring.Memory.{Shm, Ring}
use gravity_gpu_project.Ring.Completion.{comp_write}
use gravity_gpu_project.Ring.Valid.{IsValid, cmd_queue}
use gravity_gpu_project.Ring.Reply.{comp_write-IsValid}
use gravity_gpu_project.Vulkan.Calls.{Vulkan}
use gravity_gpu_project.Vulkan.State.{VkState}
use gravity_gpu_project.Commands.Host.{Host, Machine, send}
use gravity_gpu_project.Commands.Cmdbuf.{process_cmdbuf_commit, commit_found}
use gravity_gpu_project.Payload.System.{CmdCmdbufCommit, load_cmdbuf_commit}
use gravity_gpu_project.Daemon.Dispatch.{Label, run_label, run_selected, beside, process_command}

-- The region is valid still, the commands that wait are the same, and so is the data region.
pub record Kept (ring : Ring) (shm shm' : Shm) : Type 0 where
  pub valid : IsValid ring shm'
  pub commands : cmd_queue ring shm' ≡ cmd_queue ring shm
  pub blocks : (a : ℕ) → ring.data_region ≤ a → shm'.byte a ≡ shm.byte a

module _ {ring : Ring} {shm : Shm} (v : IsValid ring shm) where
  Kept-same : Kept ring shm shm
  Kept-same = record { valid = v; commands = refl; blocks = λ a _. refl }

  pub send-Kept : (bytes : List ℕ) → Kept ring shm (send ring shm bytes)
  unfolding send
  send-Kept bytes = elim (Option-cases (comp_write ring shm bytes)) [
    | inl e ↦ rw (send, e) Kept-same
    | inr (shm', e) ↦
        let (valid, commands, blocks) = comp_write-IsValid v bytes e in
        rw (send, e) (record { valid = valid; commands = commands; blocks = blocks })
  ]

  module _ (vulkan : Vulkan) (machine : Machine) (vk : VkState) where
    abbrev Leaves : Option (Shm × Host) → Type 0
    Leaves r = (shm' : Shm) (host' : Host) → r ≡ some (shm', host') → Kept ring shm shm'

    leaves : (s : Shm) (h : Host) → Kept ring shm s → Leaves (some (s, h))
    leaves s h k shm' host' e =
        subst (Kept ring shm) (ap (λ (r : Shm × Host). r.0) (some-injective _ _ e)) k

    Leaves-nothing : Leaves none
    Leaves-nothing shm' host' e = absurd (none_ne_some e)

    Leaves-if :
        (b : Bool) (s : Shm) (h : Host) → Kept ring shm s → Leaves (if b then some (s, h) else none)
    Leaves-if true s h k = leaves s h k
    Leaves-if false s h k = Leaves-nothing

    Leaves-beside : (o : Option Host) → Leaves (beside vulkan machine vk ring shm o)
    unfolding beside
    Leaves-beside none = Leaves-nothing
    Leaves-beside (some host) = leaves shm host Kept-same

    commit_found-Leaves :
        (cmd : CmdCmdbufCommit) (found : Option ℕ) (host : Host)
        → Leaves (commit_found vulkan machine vk ring cmd found shm host)
    unfolding commit_found
    commit_found-Leaves cmd none host = leaves shm host Kept-same
    commit_found-Leaves cmd (some i) host = Leaves-if _ _ _ (send-Kept _)

    run_label-Leaves :
        (l : Label) (hdr : CmdHeader) (buf : List ℕ) (host : Host)
        → Leaves (run_label vulkan machine vk ring l hdr buf shm host)
    unfolding run_label process_cmdbuf_commit
    run_label-Leaves Label.hello hdr buf host = leaves _ _ (send-Kept _)
    run_label-Leaves Label.ping hdr buf host = leaves _ _ (send-Kept _)
    run_label-Leaves Label.create_buffer hdr buf host = leaves _ _ Kept-same
    run_label-Leaves Label.destroy_buffer hdr buf host = leaves _ _ Kept-same
    run_label-Leaves Label.create_texture hdr buf host = leaves _ _ Kept-same
    run_label-Leaves Label.destroy_texture hdr buf host = leaves _ _ Kept-same
    run_label-Leaves Label.create_sampler hdr buf host = leaves _ _ Kept-same
    run_label-Leaves Label.destroy_sampler hdr buf host = leaves _ _ Kept-same
    run_label-Leaves Label.create_shader hdr buf host = leaves _ _ Kept-same
    run_label-Leaves Label.create_render_pipeline hdr buf host = leaves _ _ Kept-same
    run_label-Leaves Label.create_depth_stencil hdr buf host = leaves _ _ Kept-same
    run_label-Leaves Label.cmdbuf_create hdr buf host = leaves _ _ Kept-same
    run_label-Leaves Label.cmdbuf_commit hdr buf host =
        commit_found-Leaves (load_cmdbuf_commit buf) _ host
    run_label-Leaves (Label.render op) hdr buf host = Leaves-beside _

    selected-Leaves :
        (found : Option Label) (hdr : CmdHeader) (buf : List ℕ) (host : Host)
        → Leaves (run_selected vulkan machine vk ring found hdr buf shm host)
    unfolding run_selected
    selected-Leaves none hdr buf host = leaves _ _ Kept-same
    selected-Leaves (some l) hdr buf host = run_label-Leaves l hdr buf host

    -- In a valid region, a command that `process_command` handles leaves the region valid, and
    -- changes neither the commands that wait nor any byte from the data region on.
    pub process_command-Kept :
        (hdr : CmdHeader) (buf : List ℕ) (host : Host) {shm' : Shm} {host' : Host}
        → process_command vulkan machine vk ring hdr buf shm host ≡ some (shm', host')
        → Kept ring shm shm'
    unfolding process_command
    process_command-Kept hdr buf host {shm'} {host'} e = selected-Leaves _ hdr buf host shm' host' e
