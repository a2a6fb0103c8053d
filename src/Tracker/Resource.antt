-- ===== src/Tracker/Resource.antt =====
-- The entries of the tracker: host-daemon/src/resource_tracker.h. Vulkan handles are opaque numbers
-- (VK_NULL_HANDLE is 0), and so are mapped host pointers.
use gravity_gpu_project.Prelude.{ℕ, Bool}

-- `gravity_resource_type_t`
pub data ResourceType : Type 0 where
  buffer texture sampler shader render_pipeline compute_pipeline : ResourceType
  depth_stencil fence event cmdbuf : ResourceType

pub record BufferResource : Type 0 where
  pub buffer : ℕ
  pub memory : ℕ
  pub size : ℕ
  pub mapped : ℕ

pub record TextureResource : Type 0 where
  pub image : ℕ
  pub image_view : ℕ
  pub memory : ℕ
  pub width : ℕ
  pub height : ℕ
  pub depth : ℕ
  pub mip_levels : ℕ
  pub array_layers : ℕ
  pub format : ℕ
  pub current_layout : ℕ

pub record ShaderResource : Type 0 where
  pub module_handle : ℕ
  pub shader_type : ℕ

pub record PipelineResource : Type 0 where
  pub pipeline : ℕ
  pub layout : ℕ
  pub desc_set_layout : ℕ

-- `gravity_stencil_desc_t`
pub record StencilDesc : Type 0 where
  pub compare : ℕ
  pub stencil_fail_op : ℕ
  pub depth_fail_op : ℕ
  pub depth_stencil_pass_op : ℕ
  pub read_mask : ℕ
  pub write_mask : ℕ

pub record DepthStencilResource : Type 0 where
  pub depth_compare : ℕ
  pub depth_write_enabled : Bool
  pub front_face : StencilDesc
  pub back_face : StencilDesc

pub record CmdbufResource : Type 0 where
  pub cmd_buf : ℕ
  pub fence : ℕ
  pub recording : Bool
  pub in_render_pass : Bool

-- The anonymous union of an entry, by the member that was written last; `blank` is the zeroed union.
pub data Payload : Type 0 where
  blank : Payload
  of_buffer : BufferResource → Payload
  of_texture : TextureResource → Payload
  of_sampler : ℕ → Payload
  of_shader : ShaderResource → Payload
  of_render_pipeline : PipelineResource → Payload
  of_compute_pipeline : PipelineResource → Payload
  of_depth_stencil : DepthStencilResource → Payload
  of_cmdbuf : CmdbufResource → Payload

-- `gravity_resource_entry_t`. While an entry is free, `ref_count` is the index of the next free one.
pub record Entry : Type 0 where
  pub handle : ℕ
  pub type : ResourceType
  pub ref_count : ℕ
  pub in_use : Bool
  pub payload : Payload
