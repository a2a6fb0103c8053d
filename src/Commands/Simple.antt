-- ===== src/Commands/Simple.antt =====
-- The handlers that need no memory: samplers, and the entries of shaders, depth and stencil states
-- and render pipelines, for which the code makes no Vulkan object yet.
use gravity_gpu_project.Prelude.{ℕ, not, Option, none, some, ltb, ◌==◌}
use gravity_gpu_project.Tracker.Resource.{
  Payload, of_sampler, of_shader, of_render_pipeline, of_depth_stencil, ResourceType,
}
use gravity_gpu_project.Tracker.Table.{add}
use gravity_gpu_project.Formats.State.{compare_never, compare_function}
use gravity_gpu_project.Formats.Convert.{
  to_vk_filter, to_vk_mipmap_mode, to_vk_address_mode, to_vk_compare_op,
}
use gravity_gpu_project.Payload.Create.{CmdCreateSampler, CmdCreateShader, CmdCreateDepthStencil}
use gravity_gpu_project.Payload.Pipeline.{CmdCreateRenderPipeline}
use gravity_gpu_project.Vulkan.Calls.{Vulkan, SamplerInfo, sampler_info, create, destroy, a_sampler}
use gravity_gpu_project.Commands.Host.{Host, Machine, call, with_payload}

unfoldable pub sampler_create_info : Machine → CmdCreateSampler → SamplerInfo
sampler_create_info machine cmd = record {
  mag_filter = to_vk_filter cmd.mag_filter;
  min_filter = to_vk_filter cmd.min_filter;
  mipmap_mode = to_vk_mipmap_mode cmd.mip_filter;
  address_mode_u = to_vk_address_mode cmd.address_mode_s;
  address_mode_v = to_vk_address_mode cmd.address_mode_t;
  address_mode_w = to_vk_address_mode cmd.address_mode_r;
  anisotropy_enable = ltb 1 cmd.max_anisotropy;
  max_anisotropy = machine.float_of_u32 cmd.max_anisotropy;
  compare_enable = not (cmd.compare_function == compare_function compare_never);
  compare_op = to_vk_compare_op cmd.compare_function;
  min_lod = cmd.lod_min_clamp;
  max_lod = cmd.lod_max_clamp;
}

unfoldable pub track_sampler : CmdCreateSampler → Host → ℕ → Host
track_sampler cmd host sampler = elim (add host.tracker cmd.handle ResourceType.sampler) [
  | none ↦ call host (destroy a_sampler sampler)
  | some (i, tracker) ↦ record host { tracker = with_payload tracker i (of_sampler sampler) }
]

-- with the answer to the creation of the sampler
unfoldable pub sampler_answered : CmdCreateSampler → Host → Option ℕ → Host
unfolding track_sampler
sampler_answered cmd host none = host
sampler_answered cmd host (some sampler) = track_sampler cmd host sampler

unfoldable pub process_create_sampler : Vulkan → Machine → CmdCreateSampler → Host → Host
unfolding sampler_answered
process_create_sampler vulkan machine cmd host =
    let request = sampler_info (sampler_create_info machine cmd) in
    let answer = vulkan.creates host.log request in
    sampler_answered cmd (call host (create request answer)) answer

-- an entry that is added and filled, or else nothing
unfoldable pub track : Host → ℕ → ResourceType → Payload → Host
track host handle type payload = elim (add host.tracker handle type) [
  | none ↦ host
  | some (i, tracker) ↦ record host { tracker = with_payload tracker i payload }
]

unfoldable pub process_create_shader : CmdCreateShader → Host → Host
unfolding track
process_create_shader cmd host =
    track host cmd.handle ResourceType.shader
      (of_shader (record { module_handle = 0; shader_type = cmd.shader_type }))

-- `depth_write_enabled` is a byte, kept as a `bool`
unfoldable pub process_create_depth_stencil : CmdCreateDepthStencil → Host → Host
unfolding track
process_create_depth_stencil cmd host = track host cmd.handle ResourceType.depth_stencil (
    of_depth_stencil (record {
      depth_compare = cmd.depth_compare;
      depth_write_enabled = not (cmd.depth_write_enabled == 0);
      front_face = cmd.front_face_stencil;
      back_face = cmd.back_face_stencil;
    }))

unfoldable pub process_create_render_pipeline : CmdCreateRenderPipeline → Host → Host
unfolding track
process_create_render_pipeline cmd host =
    track host cmd.handle ResourceType.render_pipeline
      (of_render_pipeline (record { pipeline = 0; layout = 0; desc_set_layout = 0 }))
