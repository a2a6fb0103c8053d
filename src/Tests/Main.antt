-- ===== src/Tests/Main.antt =====
-- A whole run of the daemon in which the guest sends nothing, and a shutdown.
use gravity_gpu_project.Prelude.{◌≡◌, refl, true, false, some, [], ◌∷◌, arith}
use gravity_gpu_project.Vulkan.Calls.{
  Log, SamplerInfo, create, sampler_info, cmd_buf_info, descriptor_pool_info, pipeline_cache_info,
  command_pool_info, device_info, messenger_info, instance_info, a_sampler, a_cmd_buf, kind,
}
use gravity_gpu_project.Vulkan.Objects.{alive, after_call, outside, made_from}
use gravity_gpu_project.Vulkan.State.{VkState}
use gravity_gpu_project.Vulkan.Init.{zeroed_state}
use gravity_gpu_project.Vulkan.Held.{held}
use gravity_gpu_project.Vulkan.Destroy.{vk_destroy}
use gravity_gpu_project.Vulkan.Remains.{Named}
use gravity_gpu_project.Vulkan.Shutdown.{vk_destroy-leaves}
use gravity_gpu_project.Tests.Vulkan.{platform}

-- a sampler and a command buffer behind what a start has made
abbrev state : VkState
state = record zeroed_state {
  instance_handle = 1;
  debug_messenger = 2;
  device = 3;
  graphics_cmd_pool = 4;
  compute_cmd_pool = 5;
  transfer_cmd_pool = 6;
  pipeline_cache = 7;
  descriptor_pool = 8;
}

abbrev calls : SamplerInfo → Log
calls info =
    create (sampler_info info) (some 10)
    ∷ (create (cmd_buf_info 4) (some 9)
        ∷ (create descriptor_pool_info (some 8)
            ∷ (create pipeline_cache_info (some 7)
                ∷ (create (command_pool_info 2) (some 6)
                    ∷ (create (command_pool_info 1) (some 5)
                        ∷ (create (command_pool_info 0) (some 4)
                            ∷ (create (device_info (0 ∷ [])) (some 3)
                                ∷ (create messenger_info (some 2)
                                    ∷ (create (instance_info true) (some 1) ∷ [])))))))))

abbrev sampler : SamplerInfo
sampler = record {
  mag_filter = 0;
  min_filter = 0;
  mipmap_mode = 0;
  address_mode_u = 0;
  address_mode_v = 0;
  address_mode_w = 0;
  anisotropy_enable = false;
  max_anisotropy = 0;
  compare_enable = false;
  compare_op = 0;
  min_lod = 0;
  max_lod = 0;
}

state-Named : Named state
state-Named = record {
  device = omega arith;
  instance_handle = omega arith;
  graphics = omega arith;
  compute = omega arith;
  transfer = omega arith;
  compute_apart = omega arith;
  transfer_apart = omega arith;
  transfer_alone = omega arith;
}

vk_destroy-leaves_example :
    alive (vk_destroy platform (record { state = state; log = calls sampler })).log
    ≡ (a_sampler, 10) ∷ []
unfolding alive after_call kind held outside made_from
vk_destroy-leaves_example =
    vk_destroy-leaves platform state (calls sampler) ((a_sampler, 10) ∷ ((a_cmd_buf, 9) ∷ [])) refl
      state-Named (omega arith, (omega arith, tt)) refl
