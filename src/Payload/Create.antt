-- ===== src/Payload/Create.antt =====
-- The payloads of protocol/include/gravity_protocol.h: the commands that create and destroy
-- resources. The structs are packed, a float is its 32 bits, and a reserved field is not read.
use gravity_gpu_project.Prelude.{ℕ, List, load32}
use gravity_gpu_project.Payload.Load.{load_array, load64, load8, load_stencil_desc}
use gravity_gpu_project.Protocol.Header.{CmdHeader, load_header}
use gravity_gpu_project.Tracker.Resource.{StencilDesc}

-- `gravity_cmd_create_buffer_t`
pub record CmdCreateBuffer : Type 0 where
  pub hdr : CmdHeader
  pub handle : ℕ
  pub size : ℕ
  pub storage_mode : ℕ
  pub usage : ℕ
  pub data_offset : ℕ
  pub data_size : ℕ

unfoldable pub load_create_buffer : List ℕ → CmdCreateBuffer
load_create_buffer buf = record {
  hdr = load_header buf;
  handle = load32 buf 16;
  size = load64 buf 20;
  storage_mode = load32 buf 28;
  usage = load32 buf 32;
  data_offset = load64 buf 36;
  data_size = load32 buf 44;
}

abbrev pub sizeof_create_buffer : ℕ
sizeof_create_buffer = 52

-- `gravity_cmd_destroy_buffer_t`
pub record CmdDestroyBuffer : Type 0 where
  pub hdr : CmdHeader
  pub handle : ℕ

unfoldable pub load_destroy_buffer : List ℕ → CmdDestroyBuffer
load_destroy_buffer buf = record { hdr = load_header buf; handle = load32 buf 16 }

abbrev pub sizeof_destroy_buffer : ℕ
sizeof_destroy_buffer = 20

-- `gravity_cmd_create_texture_t`
pub record CmdCreateTexture : Type 0 where
  pub hdr : CmdHeader
  pub handle : ℕ
  pub texture_type : ℕ
  pub pixel_format : ℕ
  pub width : ℕ
  pub height : ℕ
  pub depth : ℕ
  pub mipmap_levels : ℕ
  pub array_length : ℕ
  pub sample_count : ℕ
  pub storage_mode : ℕ
  pub usage : ℕ
  pub data_offset : ℕ
  pub data_size : ℕ

unfoldable pub load_create_texture : List ℕ → CmdCreateTexture
load_create_texture buf = record {
  hdr = load_header buf;
  handle = load32 buf 16;
  texture_type = load32 buf 20;
  pixel_format = load32 buf 24;
  width = load32 buf 28;
  height = load32 buf 32;
  depth = load32 buf 36;
  mipmap_levels = load32 buf 40;
  array_length = load32 buf 44;
  sample_count = load32 buf 48;
  storage_mode = load32 buf 52;
  usage = load32 buf 56;
  data_offset = load64 buf 60;
  data_size = load32 buf 68;
}

abbrev pub sizeof_create_texture : ℕ
sizeof_create_texture = 76

-- `gravity_cmd_destroy_texture_t`
pub record CmdDestroyTexture : Type 0 where
  pub hdr : CmdHeader
  pub handle : ℕ

unfoldable pub load_destroy_texture : List ℕ → CmdDestroyTexture
load_destroy_texture buf = record { hdr = load_header buf; handle = load32 buf 16 }

abbrev pub sizeof_destroy_texture : ℕ
sizeof_destroy_texture = 20

-- `gravity_cmd_create_sampler_t`
pub record CmdCreateSampler : Type 0 where
  pub hdr : CmdHeader
  pub handle : ℕ
  pub min_filter : ℕ
  pub mag_filter : ℕ
  pub mip_filter : ℕ
  pub address_mode_s : ℕ
  pub address_mode_t : ℕ
  pub address_mode_r : ℕ
  pub lod_min_clamp : ℕ
  pub lod_max_clamp : ℕ
  pub max_anisotropy : ℕ
  pub compare_function : ℕ

unfoldable pub load_create_sampler : List ℕ → CmdCreateSampler
load_create_sampler buf = record {
  hdr = load_header buf;
  handle = load32 buf 16;
  min_filter = load32 buf 20;
  mag_filter = load32 buf 24;
  mip_filter = load32 buf 28;
  address_mode_s = load32 buf 32;
  address_mode_t = load32 buf 36;
  address_mode_r = load32 buf 40;
  lod_min_clamp = load32 buf 44;
  lod_max_clamp = load32 buf 48;
  max_anisotropy = load32 buf 52;
  compare_function = load32 buf 56;
}

abbrev pub sizeof_create_sampler : ℕ
sizeof_create_sampler = 64

-- `gravity_cmd_destroy_sampler_t`
pub record CmdDestroySampler : Type 0 where
  pub hdr : CmdHeader
  pub handle : ℕ

unfoldable pub load_destroy_sampler : List ℕ → CmdDestroySampler
load_destroy_sampler buf = record { hdr = load_header buf; handle = load32 buf 16 }

abbrev pub sizeof_destroy_sampler : ℕ
sizeof_destroy_sampler = 20

-- `gravity_cmd_create_shader_t`
pub record CmdCreateShader : Type 0 where
  pub hdr : CmdHeader
  pub handle : ℕ
  pub shader_type : ℕ
  pub source_type : ℕ
  pub source_offset : ℕ
  pub source_size : ℕ
  pub entry_point : List ℕ

unfoldable pub load_create_shader : List ℕ → CmdCreateShader
load_create_shader buf = record {
  hdr = load_header buf;
  handle = load32 buf 16;
  shader_type = load32 buf 20;
  source_type = load32 buf 24;
  source_offset = load64 buf 28;
  source_size = load32 buf 36;
  entry_point = load_array load8 64 1 buf 40;
}

abbrev pub sizeof_create_shader : ℕ
sizeof_create_shader = 108

-- `gravity_cmd_destroy_shader_t`
pub record CmdDestroyShader : Type 0 where
  pub hdr : CmdHeader
  pub handle : ℕ

unfoldable pub load_destroy_shader : List ℕ → CmdDestroyShader
load_destroy_shader buf = record { hdr = load_header buf; handle = load32 buf 16 }

abbrev pub sizeof_destroy_shader : ℕ
sizeof_destroy_shader = 20

-- `gravity_cmd_create_compute_pipeline_t`
pub record CmdCreateComputePipeline : Type 0 where
  pub hdr : CmdHeader
  pub handle : ℕ
  pub compute_shader : ℕ
  pub thread_group_size_x : ℕ
  pub thread_group_size_y : ℕ
  pub thread_group_size_z : ℕ

unfoldable pub load_create_compute_pipeline : List ℕ → CmdCreateComputePipeline
load_create_compute_pipeline buf = record {
  hdr = load_header buf;
  handle = load32 buf 16;
  compute_shader = load32 buf 20;
  thread_group_size_x = load32 buf 24;
  thread_group_size_y = load32 buf 28;
  thread_group_size_z = load32 buf 32;
}

abbrev pub sizeof_create_compute_pipeline : ℕ
sizeof_create_compute_pipeline = 40

-- `gravity_cmd_destroy_render_pipeline_t`
pub record CmdDestroyRenderPipeline : Type 0 where
  pub hdr : CmdHeader
  pub handle : ℕ

unfoldable pub load_destroy_render_pipeline : List ℕ → CmdDestroyRenderPipeline
load_destroy_render_pipeline buf = record { hdr = load_header buf; handle = load32 buf 16 }

abbrev pub sizeof_destroy_render_pipeline : ℕ
sizeof_destroy_render_pipeline = 20

-- `gravity_cmd_create_depth_stencil_t`
pub record CmdCreateDepthStencil : Type 0 where
  pub hdr : CmdHeader
  pub handle : ℕ
  pub depth_compare : ℕ
  pub depth_write_enabled : ℕ
  pub front_face_stencil : StencilDesc
  pub back_face_stencil : StencilDesc

unfoldable pub load_create_depth_stencil : List ℕ → CmdCreateDepthStencil
load_create_depth_stencil buf = record {
  hdr = load_header buf;
  handle = load32 buf 16;
  depth_compare = load32 buf 20;
  depth_write_enabled = load8 buf 24;
  front_face_stencil = load_stencil_desc buf 28;
  back_face_stencil = load_stencil_desc buf 52;
}

abbrev pub sizeof_create_depth_stencil : ℕ
sizeof_create_depth_stencil = 76
