-- ===== src/Commands/Buffer.antt =====
-- `gravity_cmd_process_create_buffer`.
use gravity_gpu_project.Prelude.{
  ℕ, true, ◌&&◌, ◌||◌, not, Option, none, some, if◌then◌else◌, ltb, ◌==◌, u32_max,
}
use gravity_gpu_project.Ring.Memory.{Shm, Ring}
use gravity_gpu_project.Ring.Region.{data_ptr}
use gravity_gpu_project.Tracker.Resource.{of_buffer, ResourceType}
use gravity_gpu_project.Tracker.Table.{add}
use gravity_gpu_project.Formats.Metal.{storage_mode, storage_shared, storage_managed}
use gravity_gpu_project.Translate.Flags.{no_properties, translate_storage_mode}
use gravity_gpu_project.Payload.Create.{CmdCreateBuffer}
use gravity_gpu_project.Vulkan.Calls.{
  Vulkan, BufferInfo, buffer_info, memory_info, create, destroy, bind_memory, map_memory, host_copy,
  a_buffer, a_memory,
}
use gravity_gpu_project.Vulkan.Memory.{find_memory_type}
use gravity_gpu_project.Vulkan.State.{VkState}
use gravity_gpu_project.Commands.Host.{Host, call, with_payload, bytes_at}

-- the type asked for, or else any that is visible to the host
unfoldable pub buffer_memory_type : VkState → ℕ → ℕ → ℕ
buffer_memory_type vk bits mode =
    let mem_type = find_memory_type vk.memory_types bits (translate_storage_mode mode) in
    if mem_type == u32_max
    then find_memory_type vk.memory_types bits
        (record no_properties { host_visible = true; host_coherent = true })
    else mem_type

abbrev pub buffer_create_info : CmdCreateBuffer → BufferInfo
buffer_create_info cmd = record {
  size = cmd.size;
  usage = record {
    vertex_buffer = true;
    index_buffer = true;
    uniform_buffer = true;
    storage_buffer = true;
    transfer_src = true;
    transfer_dst = true;
  };
}

module _ (vulkan : Vulkan) (vk : VkState) (ring : Ring) (shm : Shm) (cmd : CmdCreateBuffer) where
  -- `if (src) memcpy(...)` into the mapping at `mapped`. The code does not compare the number of bytes
  -- with the sizes of the mapping and of the region, and the call in the log has no bounds either.
  unfoldable pub copy_initial : Host → ℕ → Host
  copy_initial host mapped =
      if ltb 0 cmd.data_offset && (ltb 0 cmd.data_size && not (mapped == 0))
      then elim (data_ptr ring shm cmd.data_offset) [
        | none ↦ host
        | some src ↦ call host (host_copy mapped (bytes_at shm.byte src cmd.data_size))
      ]
      else host

  -- A shared or managed buffer is mapped; a mapping that fails leaves the pointer NULL.
  unfoldable pub map_shared : Host → ℕ → Host × ℕ
  map_shared host memory =
      let answer = vulkan.maps host.log memory cmd.size in
      if cmd.storage_mode == storage_mode storage_shared
        || cmd.storage_mode == storage_mode storage_managed
      then (
        call host (map_memory memory cmd.size answer),
        elim answer [ none ↦ 0 | some pointer ↦ pointer ],
      )
      else (host, 0)

  -- the new entry filled, the memory mapped and the initial data copied
  unfoldable pub fill_buffer : Host → ℕ → ℕ → ℕ → Host
  unfolding copy_initial map_shared
  fill_buffer host i buffer memory =
      let (host₁, mapped) = map_shared host memory in
      let filled =
        of_buffer (record { buffer = buffer; memory = memory; size = cmd.size; mapped = mapped }) in
      copy_initial (record host₁ { tracker = with_payload host₁.tracker i filled }) mapped

  -- with the buffer created and its memory allocated and bound
  unfoldable pub track_buffer : Host → ℕ → ℕ → Host
  unfolding fill_buffer
  track_buffer host buffer memory = elim (add host.tracker cmd.handle ResourceType.buffer) [
    | none ↦ call (call host (destroy a_memory memory)) (destroy a_buffer buffer)
    | some (i, tracker) ↦ fill_buffer (record host { tracker = tracker }) i buffer memory
  ]

  -- with the buffer created, and the answer to the allocation of its memory
  unfoldable pub memory_answered : Host → ℕ → Option ℕ → Host
  unfolding track_buffer
  memory_answered host buffer none = call host (destroy a_buffer buffer)
  memory_answered host buffer (some memory) =
      track_buffer (call host (bind_memory a_buffer buffer memory)) buffer memory

  unfoldable pub allocate_buffer : Host → ℕ → Host
  unfolding memory_answered
  allocate_buffer host buffer =
      let reqs = vulkan.requirements host.log a_buffer buffer in
      let request = memory_info (record {
        allocation_size = reqs.size;
        memory_type_index = buffer_memory_type vk reqs.memory_type_bits cmd.storage_mode;
      }) in
      let answer = vulkan.creates host.log request in
      memory_answered (call host (create request answer)) buffer answer

  -- with the answer to the creation of the buffer
  unfoldable pub buffer_answered : Host → Option ℕ → Host
  unfolding allocate_buffer
  buffer_answered host none = host
  buffer_answered host (some buffer) = allocate_buffer host buffer

  unfoldable pub process_create_buffer : Host → Host
  unfolding buffer_answered
  process_create_buffer host =
      let request = buffer_info (buffer_create_info cmd) in
      let answer = vulkan.creates host.log request in
      buffer_answered (call host (create request answer)) answer
