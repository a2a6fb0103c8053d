-- ===== src/Vulkan/Destroy.antt =====
-- `gravity_vk_destroy`, and the commands that are used once.
use gravity_gpu_project.Prelude.{ℕ, Bool, ◌&&◌, not, Option, none, some, ◌∷◌, if◌then◌else◌, ◌==◌}
use gravity_gpu_project.Vulkan.Calls.{
  Vulkan, Log, destroy, device_wait_idle, queue_wait_idle, Kind, an_instance, a_messenger, a_device,
  a_command_pool, a_pipeline_cache, a_descriptor_pool, a_cmd_buf, create, cmd_buf_info,
  begin_command_buffer, end_command_buffer, queue_submit,
}
use gravity_gpu_project.Vulkan.State.{VkState}
use gravity_gpu_project.Vulkan.Init.{Platform, Session, zeroed_state}

-- `if (test) destroy`
abbrev pub destroy_if : Bool → Kind → ℕ → Log → Log
destroy_if test k h log = if test then destroy k h ∷ log else log

module _ (platform : Platform) where
  -- the objects that belong to the device
  unfoldable pub destroy_children : VkState → Log → Log
  destroy_children st log =
      let g = st.graphics_cmd_pool in
      let c = st.compute_cmd_pool in
      let t = st.transfer_cmd_pool in
      let log₁ =
        destroy_if (not (st.descriptor_pool == 0)) a_descriptor_pool st.descriptor_pool
          (device_wait_idle ∷ log) in
      let log₂ =
        destroy_if (not (st.pipeline_cache == 0)) a_pipeline_cache st.pipeline_cache log₁ in
      let log₃ = destroy_if (not (g == 0)) a_command_pool g log₂ in
      let log₄ = destroy_if (not (c == 0) && not (c == g)) a_command_pool c log₃ in
      destroy_if (not (t == 0) && (not (t == g) && not (t == c))) a_command_pool t log₄

  unfoldable pub vk_destroy : Session → Session
  unfolding destroy_children
  vk_destroy s =
      let st = s.state in
      let log₁ = destroy a_device st.device ∷ destroy_children st s.log in
      let log₂ =
        destroy_if (not (st.debug_messenger == 0) && platform.has_destroy_messenger) a_messenger
          st.debug_messenger log₁ in
      if st.device == 0
      then s
      else record { state = zeroed_state; log = destroy an_instance st.instance_handle ∷ log₂ }

-- The command buffer of `gravity_vk_begin_single_time_commands`, whose allocation is not checked:
-- `none` stands for a handle that was never set.
unfoldable pub begin_single_time : Vulkan → VkState → Log → Option ℕ × Log
begin_single_time vulkan st log =
    let answer = vulkan.creates log (cmd_buf_info st.graphics_cmd_pool) in
    let asked = create (cmd_buf_info st.graphics_cmd_pool) answer ∷ log in
    (answer, elim answer [ none ↦ asked | some h ↦ begin_command_buffer h ∷ asked ])

unfoldable pub end_single_time : VkState → ℕ → Log → Log
end_single_time st cmd_buf log =
    destroy a_cmd_buf cmd_buf
    ∷ (queue_wait_idle st.graphics_queue
        ∷ (queue_submit st.graphics_queue cmd_buf 0 ∷ (end_command_buffer cmd_buf ∷ log)))
