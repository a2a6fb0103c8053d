-- ===== src/Vulkan/Calls.antt =====
-- The calls of the Vulkan API that the daemon makes. The library is a parameter of the model: it
-- answers each call from the calls made before it. A handle is a number, 0 is VK_NULL_HANDLE, and a
-- float is its 32 bits.
use gravity_gpu_project.Prelude.{ℕ, Bool, List, Option}
use gravity_gpu_project.Translate.Flags.{ImageUsage, ImageType, ImageViewType, Aspects}

-- `VkBufferUsageFlags`
pub record BufferUsage : Type 0 where
  pub vertex_buffer : Bool
  pub index_buffer : Bool
  pub uniform_buffer : Bool
  pub storage_buffer : Bool
  pub transfer_src : Bool
  pub transfer_dst : Bool

pub record BufferInfo : Type 0 where
  pub size : ℕ
  pub usage : BufferUsage

pub record MemoryInfo : Type 0 where
  pub allocation_size : ℕ
  pub memory_type_index : ℕ

-- `samples` is the number of samples that the flag bit stands for
pub record ImageInfo : Type 0 where
  pub image_type : ImageType
  pub format : ℕ
  pub width : ℕ
  pub height : ℕ
  pub depth : ℕ
  pub mip_levels : ℕ
  pub array_layers : ℕ
  pub samples : ℕ
  pub usage : ImageUsage
  pub cube_compatible : Bool

pub record ImageViewInfo : Type 0 where
  pub image : ℕ
  pub view_type : ImageViewType
  pub format : ℕ
  pub aspects : Aspects
  pub level_count : ℕ
  pub layer_count : ℕ

pub record SamplerInfo : Type 0 where
  pub mag_filter : ℕ
  pub min_filter : ℕ
  pub mipmap_mode : ℕ
  pub address_mode_u : ℕ
  pub address_mode_v : ℕ
  pub address_mode_w : ℕ
  pub anisotropy_enable : Bool
  pub max_anisotropy : ℕ
  pub compare_enable : Bool
  pub compare_op : ℕ
  pub min_lod : ℕ
  pub max_lod : ℕ

-- The descriptors of the calls that create an object. A command buffer has its pool, a device the
-- queue families, a command pool its family.
pub data CreateInfo : Type 0 where
  instance_info : Bool → CreateInfo
  messenger_info : CreateInfo
  device_info : List ℕ → CreateInfo
  command_pool_info : ℕ → CreateInfo
  pipeline_cache_info : CreateInfo
  descriptor_pool_info : CreateInfo
  buffer_info : BufferInfo → CreateInfo
  memory_info : MemoryInfo → CreateInfo
  image_info : ImageInfo → CreateInfo
  image_view_info : ImageViewInfo → CreateInfo
  sampler_info : SamplerInfo → CreateInfo
  fence_info : CreateInfo
  cmd_buf_info : ℕ → CreateInfo

pub data Kind : Type 0 where
  an_instance a_messenger a_device a_command_pool a_pipeline_cache a_descriptor_pool : Kind
  a_buffer a_memory an_image an_image_view a_sampler a_fence a_cmd_buf : Kind

unfoldable pub kind : CreateInfo → Kind
kind (instance_info _) = an_instance
kind messenger_info = a_messenger
kind (device_info _) = a_device
kind (command_pool_info _) = a_command_pool
kind pipeline_cache_info = a_pipeline_cache
kind descriptor_pool_info = a_descriptor_pool
kind (buffer_info _) = a_buffer
kind (memory_info _) = a_memory
kind (image_info _) = an_image
kind (image_view_info _) = an_image_view
kind (sampler_info _) = a_sampler
kind fence_info = a_fence
kind (cmd_buf_info _) = a_cmd_buf

-- `VkMemoryRequirements`
pub record Requirements : Type 0 where
  pub size : ℕ
  pub memory_type_bits : ℕ

-- `VkImageLayout`, as its number
abbrev pub layout_undefined : ℕ
layout_undefined = 0

abbrev pub layout_color_attachment : ℕ
layout_color_attachment = 2

abbrev pub layout_depth_stencil_attachment : ℕ
layout_depth_stencil_attachment = 3

-- `VkImageMemoryBarrier`, of the color aspect, one level and one layer
pub record Barrier : Type 0 where
  pub old_layout : ℕ
  pub new_layout : ℕ
  pub image : ℕ
  pub base_mip_level : ℕ
  pub base_array_layer : ℕ

-- `VkRenderingAttachmentInfo`; the clear value is a color, or the depth alone
pub record Attachment : Type 0 where
  pub image_view : ℕ
  pub image_layout : ℕ
  pub load_op : ℕ
  pub store_op : ℕ
  pub clear_value : List ℕ

-- `VkRenderingInfo`; the offset of the area is kept as the 32 bits of the wire, and an attachment that
-- was never written is `none`
pub record RenderingInfo : Type 0 where
  pub area_x : ℕ
  pub area_y : ℕ
  pub area_width : ℕ
  pub area_height : ℕ
  pub color_attachments : List (Option Attachment)
  pub depth_attachment : Option Attachment

pub record Viewport : Type 0 where
  pub x : ℕ
  pub y : ℕ
  pub width : ℕ
  pub height : ℕ
  pub min_depth : ℕ
  pub max_depth : ℕ

pub record Rect : Type 0 where
  pub x : ℕ
  pub y : ℕ
  pub width : ℕ
  pub height : ℕ

-- what is recorded into a command buffer
pub data Recorded : Type 0 where
  pipeline_barrier : Barrier → Recorded
  begin_rendering : RenderingInfo → Recorded
  end_rendering : Recorded
  set_viewport : Viewport → Recorded
  set_scissor : Rect → Recorded
  -- binding, buffer, offset
  bind_vertex_buffer : ℕ → ℕ → ℕ → Recorded
  -- buffer, offset, index type
  bind_index_buffer : ℕ → ℕ → ℕ → Recorded
  -- vertices, instances, first vertex, first instance
  draw : ℕ → ℕ → ℕ → ℕ → Recorded
  -- indices, instances
  draw_indexed : ℕ → ℕ → Recorded

-- One call, with its answer where the code reads it. `host_copy` is a `memcpy` to a mapped pointer.
pub data Call : Type 0 where
  create : CreateInfo → Option ℕ → Call
  destroy : Kind → ℕ → Call
  bind_memory : Kind → ℕ → ℕ → Call
  map_memory : ℕ → ℕ → Option ℕ → Call
  host_copy : ℕ → List ℕ → Call
  begin_command_buffer : ℕ → Call
  end_command_buffer : ℕ → Call
  reset_command_buffer : ℕ → Call
  record_into : ℕ → Recorded → Call
  -- queue, command buffer, fence
  queue_submit : ℕ → ℕ → ℕ → Call
  queue_wait_idle : ℕ → Call
  device_wait_idle : Call
  wait_for_fence : ℕ → Call
  reset_fence : ℕ → Call

-- the calls made, the last one first
abbrev pub Log : Type 0
Log = List Call

-- What the library answers: to the creation of an object, to the question for an object's memory
-- requirements, to a mapping, and the queue of a family, and whether a wait for a fence without a
-- time limit ever ends. `none` stands for a result other than VK_SUCCESS.
pub record Vulkan : Type 0 where
  pub creates : Log → CreateInfo → Option ℕ
  pub requirements : Log → Kind → ℕ → Requirements
  pub maps : Log → ℕ → ℕ → Option ℕ
  pub queue_of : Log → ℕ → ℕ
  pub signals : Log → ℕ → Bool
