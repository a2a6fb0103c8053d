-- ===== src/Daemon/Commit.antt =====
-- A commit from its bytes to what the guest reads.
use mathlib.Core.List.{append-nil}
use gravity_gpu_project.Prelude.{
  ℕ, ◌^◌, ◌≤◌, ◌<◌, ◌≡◌, refl, ap, ◌∙◌, sym, subst, true, false, some, List, [], ◌∷◌, ◌++◌, length,
  load16, load32, arith,
}
use gravity_gpu_project.Protocol.Opcode.{opcode}
use gravity_gpu_project.Protocol.Header.{IsWord, cmd_init, load_header, header_bytes}
use gravity_gpu_project.Ring.Memory.{Shm, Ring}
use gravity_gpu_project.Ring.Completion.{received, comp_read}
use gravity_gpu_project.Ring.Queue.{offer}
use gravity_gpu_project.Ring.Valid.{IsValid, comp_queue}
use gravity_gpu_project.Ring.Reply.{comp_read-front}
use gravity_gpu_project.Tracker.Resource.{of_cmdbuf, ResourceType, CmdbufResource}
use gravity_gpu_project.Tracker.Table.{get}
use gravity_gpu_project.Payload.System.{
  CmdCmdbufCommit, CmdCmdbufCompleted, load_cmdbuf_commit, load_cmdbuf_completed,
}
use gravity_gpu_project.Vulkan.Calls.{Vulkan, reset_fence, reset_command_buffer}
use gravity_gpu_project.Vulkan.State.{VkState}
use gravity_gpu_project.Commands.Host.{Host, Machine, with_payload, send}
use gravity_gpu_project.Commands.Cmdbuf.{completion, completed_bytes}
use gravity_gpu_project.Commands.Commit.{waited, commit-done, load-completed_bytes}
use gravity_gpu_project.Daemon.Dispatch.{Label, label_op, run_label, process_command}
use gravity_gpu_project.Daemon.Quiet.{send-Kept}
use gravity_gpu_project.Daemon.Answer.{offered, send-offered, process_command-label}

-- what the guest finds in the completion of a commit
pub record IsAnswer (sequence handle : ℕ) (got : CmdCmdbufCompleted) : Type 0 where
  pub op : got.hdr.opcode ≡ 0x0503
  pub size : got.hdr.size ≡ 32
  pub sequence_same : got.hdr.sequence ≡ sequence
  pub handle_same : got.handle ≡ handle
  pub success : got.status ≡ 0

module _ (cmd : CmdCmdbufCommit) where
  length-completed : length (completed_bytes (completion cmd)) ≡ 32
  unfolding completed_bytes completion header_bytes cmd_init
  length-completed = refl

  completed_size : load32 (completed_bytes (completion cmd)) 4 ≡ 32
  unfolding completed_bytes completion header_bytes cmd_init
  completed_size = refl

  completion-IsAnswer :
      (rest : List ℕ)
      → cmd.hdr.sequence < 2 ^ 32
      → cmd.handle < 2 ^ 32
      → IsAnswer cmd.hdr.sequence cmd.handle
          (load_cmdbuf_completed (completed_bytes (completion cmd) ++ rest))
  unfolding completion cmd_init opcode
  completion-IsAnswer rest small_sequence small_handle =
      let w : IsWord (completion cmd).hdr = record {
        opcode16 = omega arith;
        flags16 = omega arith;
        size32 = omega arith;
        sequence32 = small_sequence;
        fence32 = omega arith;
      } in
      let same =
        load-completed_bytes (completion cmd) rest w small_handle (omega arith) (omega arith) in
      record {
        op = ap (λ (c : CmdCmdbufCompleted). c.hdr.opcode) same;
        size = ap (λ (c : CmdCmdbufCompleted). c.hdr.size) same;
        sequence_same = ap (λ (c : CmdCmdbufCompleted). c.hdr.sequence) same;
        handle_same = ap (λ (c : CmdCmdbufCompleted). c.handle) same;
        success = ap (λ (c : CmdCmdbufCompleted). c.status) same;
      }

fits_first : (size : ℕ) (src : List ℕ) → length src ≡ 32 → 32 < size → offered size [] src ≡ src
unfolding offer
fits_first size src short room = ground arith

-- In a valid region whose completion queue is empty and has room for 32 bytes, the bytes of a
-- commit of a command buffer that the tracker knows, whose wait for the fence ends, are handled
-- as follows: the recording is ended, submitted and waited for, and the fence and the command
-- buffer are reset, in this order; nothing in the tracker changes but the entry's recording flag;
-- and the guest's next read gives a completion of 32 bytes with the sequence number and the
-- handle of the commit and status 0.
pub commit-answered :
    (vulkan : Vulkan) (machine : Machine) (vk : VkState) (ring : Ring) {shm : Shm}
    (v : IsValid ring shm) (buf : List ℕ) (host : Host) (i : ℕ) (c : CmdbufResource) (out : List ℕ)
    → load16 buf 0 ≡ 0x0501
    → load32 buf 8 < 2 ^ 32
    → load32 buf 16 < 2 ^ 32
    → get host.tracker (load32 buf 16) ≡ some i
    → (host.tracker.entries i).type ≡ ResourceType.cmdbuf
    → (host.tracker.entries i).payload ≡ of_cmdbuf c
    → vulkan.signals (waited vk c host.log) c.fence ≡ true
    → comp_queue ring shm ≡ []
    → 32 < ring.comp_ring_size
    → 32 ≤ length out
    → (shm' : Shm) × (host' : Host) × (process_command vulkan machine vk ring
          (load_header buf)
          buf
          shm
          host
        ≡ some (shm', host'))
      × (host'.log ≡ reset_command_buffer c.cmd_buf ∷ (reset_fence c.fence ∷ waited vk c host.log))
      × (host'.tracker ≡ with_payload host.tracker i (of_cmdbuf (record c { recording = false })))
      × ((comp_read ring shm' out).0 ≡ received 32)
      × IsAnswer (load32 buf 8) (load32 buf 16) (load_cmdbuf_completed (comp_read ring shm' out).1)
unfolding label_op opcode run_label load_cmdbuf_commit load_header
commit-answered vulkan machine vk ring {shm} v buf host i c out op s h e type filled ends quiet room
      fits =
    let cmd = load_cmdbuf_commit buf in
    let answer = completed_bytes (completion cmd) in
    let shm' = send ring shm answer in
    let run =
      process_command-label vulkan machine vk ring Label.cmdbuf_commit (load_header buf) buf shm
        host op in
    let done = commit-done vulkan machine vk ring cmd shm host i c e type filled ends in
    let waiting : comp_queue ring shm' ≡ answer ++ [] =
      send-offered v answer
      ∙ ap (λ q. offered ring.comp_ring_size q answer) quiet
      ∙ fits_first ring.comp_ring_size answer (length-completed cmd) room
      ∙ sym (append-nil answer) in
    let (got, bytes, _, _, _) =
      comp_read-front (send-Kept v answer).valid answer [] out waiting
        (omega (arith, length-completed cmd)) (omega (arith, length-completed cmd, fits))
        (completed_size cmd ∙ sym (length-completed cmd)) in
    (
      shm',
      _,
      run ∙ done,
      refl,
      refl,
      got ∙ ap received (length-completed cmd),
      subst (λ l. IsAnswer (load32 buf 8) (load32 buf 16) (load_cmdbuf_completed l)) (sym bytes)
          (completion-IsAnswer cmd _ s h),
    )
