-- ===== src/Commands/Cmdbuf.antt =====
-- `gravity_cmd_process_cmdbuf_create` and `gravity_cmd_process_cmdbuf_commit`.
use gravity_gpu_project.Prelude.{
  ℕ, ◌^◌, ◌/◌, ◌%◌, Bool, true, false, if◌then◌else◌, Option, none, some, List, ◌++◌, bytes32,
}
use gravity_gpu_project.Ring.Memory.{Shm, Ring}
use gravity_gpu_project.Protocol.Opcode.{opcode, cmdbuf_completed}
use gravity_gpu_project.Protocol.Header.{cmd_init, header_bytes}
use gravity_gpu_project.Tracker.Resource.{of_cmdbuf, ResourceType, CmdbufResource}
use gravity_gpu_project.Tracker.Table.{add, get}
use gravity_gpu_project.Payload.System.{
  CmdCmdbufCreate, CmdCmdbufCommit, CmdCmdbufCompleted, sizeof_cmdbuf_completed,
}
use gravity_gpu_project.Vulkan.Calls.{
  Vulkan, cmd_buf_info, fence_info, create, destroy, a_cmd_buf, a_fence, begin_command_buffer,
  end_command_buffer, queue_submit, wait_for_fence, reset_fence, reset_command_buffer,
}
use gravity_gpu_project.Vulkan.State.{VkState}
use gravity_gpu_project.Commands.Host.{Host, Machine, call, with_payload, as_cmdbuf, send}

-- with the command buffer and its fence created
unfoldable pub track_cmdbuf : CmdCmdbufCreate → Host → ℕ → ℕ → Host
track_cmdbuf cmd host cmd_buf fence = elim (add host.tracker cmd.handle ResourceType.cmdbuf) [
  | none ↦ call (call host (destroy a_fence fence)) (destroy a_cmd_buf cmd_buf)
  | some (i, tracker) ↦ record host {
    tracker = with_payload tracker i (
        of_cmdbuf
          (record { cmd_buf = cmd_buf; fence = fence; recording = true; in_render_pass = false }));
  }
]

-- with the command buffer created, and the answer to the creation of the fence
unfoldable pub fence_answered : CmdCmdbufCreate → Host → ℕ → Option ℕ → Host
unfolding track_cmdbuf
fence_answered cmd host cmd_buf none = call host (destroy a_cmd_buf cmd_buf)
fence_answered cmd host cmd_buf (some fence) =
    track_cmdbuf cmd (call host (begin_command_buffer cmd_buf)) cmd_buf fence

-- with the answer to the allocation of the command buffer
unfoldable pub cmdbuf_answered : Vulkan → CmdCmdbufCreate → Host → Option ℕ → Host
unfolding fence_answered
cmdbuf_answered vulkan cmd host none = host
cmdbuf_answered vulkan cmd host (some cmd_buf) =
    let answer = vulkan.creates host.log fence_info in
    fence_answered cmd (call host (create fence_info answer)) cmd_buf answer

unfoldable pub process_cmdbuf_create : Vulkan → VkState → CmdCmdbufCreate → Host → Host
unfolding cmdbuf_answered
process_cmdbuf_create vulkan vk cmd host =
    let request = cmd_buf_info vk.graphics_cmd_pool in
    let answer = vulkan.creates host.log request in
    cmdbuf_answered vulkan cmd (call host (create request answer)) answer

-- the completion that a commit sends, and its bytes
unfoldable pub completion : CmdCmdbufCommit → CmdCmdbufCompleted
completion cmd = record {
  hdr = cmd_init (opcode cmdbuf_completed) sizeof_cmdbuf_completed cmd.hdr.sequence;
  handle = cmd.handle;
  status = 0;
  gpu_time_ns = 0;
}

unfoldable pub completed_bytes : CmdCmdbufCompleted → List ℕ
completed_bytes c =
    header_bytes c.hdr
    ++ (bytes32 c.handle
        ++ (bytes32 c.status
            ++ (bytes32 (c.gpu_time_ns % 2 ^ 32) ++ bytes32 (c.gpu_time_ns / 2 ^ 32))))

-- the calls of a commit up to the wait, the last one first
unfoldable pub submitted : VkState → Host → CmdbufResource → Host
submitted vk host c =
    let host₁ = call host (end_command_buffer c.cmd_buf) in
    let host₂ = call host₁ (queue_submit vk.graphics_queue c.cmd_buf c.fence) in
    call host₂ (wait_for_fence c.fence)

-- the calls behind the completion
unfoldable pub cleaned_up : Host → CmdbufResource → Host
cleaned_up host c = call (call host (reset_fence c.fence)) (reset_command_buffer c.cmd_buf)

abbrev pub is_cmdbuf : ResourceType → Bool
is_cmdbuf ResourceType.cmdbuf = true
is_cmdbuf _ = false

-- The handle of a command buffer given, its entry: both guards of the commit.
unfoldable pub cmdbuf_entry : Host → ℕ → Option ℕ
cmdbuf_entry host handle = elim (get host.tracker handle) [
  | none ↦ none
  | some i ↦ if is_cmdbuf (host.tracker.entries i).type then some i else none
]

-- With the result of the guards. The wait has no time limit: `none` stands for one that never ends.
unfoldable pub commit_found :
    Vulkan
    → Machine
    → VkState
    → Ring
    → CmdCmdbufCommit
    → Option ℕ
    → Shm
    → Host
    → Option (Shm × Host)
unfolding submitted cleaned_up completion completed_bytes
commit_found vulkan machine vk ring cmd none shm host = some (shm, host)
commit_found vulkan machine vk ring cmd (some i) shm host =
    let c = as_cmdbuf machine (host.tracker.entries i).payload in
    let stopped = with_payload host.tracker i (of_cmdbuf (record c { recording = false })) in
    let waiting = submitted vk (record host { tracker = stopped }) c in
    let notified = send ring shm (completed_bytes (completion cmd)) in
    if vulkan.signals waiting.log c.fence then some (notified, cleaned_up waiting c) else none

unfoldable pub process_cmdbuf_commit :
    Vulkan → Machine → VkState → Ring → CmdCmdbufCommit → Shm → Host → Option (Shm × Host)
unfolding commit_found cmdbuf_entry
process_cmdbuf_commit vulkan machine vk ring cmd shm host =
    commit_found vulkan machine vk ring cmd (cmdbuf_entry host cmd.handle) shm host
