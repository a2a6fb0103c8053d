-- ===== src/Payload/Encode.antt =====
-- The payloads of protocol/include/gravity_protocol.h: the commands of the compute encoder and of
-- the blit encoder. The structs are packed, a float is its 32 bits, and a reserved field is not
-- read.
use gravity_gpu_project.Prelude.{ℕ, ◌+◌, List, load32}
use gravity_gpu_project.Payload.Load.{load64}
use gravity_gpu_project.Protocol.Header.{CmdHeader, load_header}

-- `gravity_origin_t`
pub record Origin : Type 0 where
  pub x : ℕ
  pub y : ℕ
  pub z : ℕ

unfoldable pub load_origin : List ℕ → ℕ → Origin
load_origin buf i = record { x = load32 buf i; y = load32 buf (i + 4); z = load32 buf (i + 8) }

-- `gravity_size_t`
pub record Size : Type 0 where
  pub width : ℕ
  pub height : ℕ
  pub depth : ℕ

unfoldable pub load_size : List ℕ → ℕ → Size
load_size buf i = record {
  width = load32 buf i;
  height = load32 buf (i + 4);
  depth = load32 buf (i + 8);
}

-- `gravity_cmd_compute_begin_t`
pub record CmdComputeBegin : Type 0 where
  pub hdr : CmdHeader
  pub cmdbuf : ℕ

unfoldable pub load_compute_begin : List ℕ → CmdComputeBegin
load_compute_begin buf = record { hdr = load_header buf; cmdbuf = load32 buf 16 }

abbrev pub sizeof_compute_begin : ℕ
sizeof_compute_begin = 20

-- `gravity_cmd_compute_end_t`
pub record CmdComputeEnd : Type 0 where
  pub hdr : CmdHeader
  pub cmdbuf : ℕ

unfoldable pub load_compute_end : List ℕ → CmdComputeEnd
load_compute_end buf = record { hdr = load_header buf; cmdbuf = load32 buf 16 }

abbrev pub sizeof_compute_end : ℕ
sizeof_compute_end = 20

-- `gravity_cmd_compute_set_pipeline_t`
pub record CmdComputeSetPipeline : Type 0 where
  pub hdr : CmdHeader
  pub cmdbuf : ℕ
  pub pipeline : ℕ

unfoldable pub load_compute_set_pipeline : List ℕ → CmdComputeSetPipeline
load_compute_set_pipeline buf = record {
  hdr = load_header buf;
  cmdbuf = load32 buf 16;
  pipeline = load32 buf 20;
}

abbrev pub sizeof_compute_set_pipeline : ℕ
sizeof_compute_set_pipeline = 24

-- `gravity_cmd_compute_set_buffer_t`
pub record CmdComputeSetBuffer : Type 0 where
  pub hdr : CmdHeader
  pub cmdbuf : ℕ
  pub buffer : ℕ
  pub offset : ℕ
  pub index : ℕ

unfoldable pub load_compute_set_buffer : List ℕ → CmdComputeSetBuffer
load_compute_set_buffer buf = record {
  hdr = load_header buf;
  cmdbuf = load32 buf 16;
  buffer = load32 buf 20;
  offset = load32 buf 24;
  index = load32 buf 28;
}

abbrev pub sizeof_compute_set_buffer : ℕ
sizeof_compute_set_buffer = 32

-- `gravity_cmd_compute_dispatch_t`
pub record CmdComputeDispatch : Type 0 where
  pub hdr : CmdHeader
  pub cmdbuf : ℕ
  pub threadgroups_x : ℕ
  pub threadgroups_y : ℕ
  pub threadgroups_z : ℕ
  pub threads_per_group_x : ℕ
  pub threads_per_group_y : ℕ
  pub threads_per_group_z : ℕ

unfoldable pub load_compute_dispatch : List ℕ → CmdComputeDispatch
load_compute_dispatch buf = record {
  hdr = load_header buf;
  cmdbuf = load32 buf 16;
  threadgroups_x = load32 buf 20;
  threadgroups_y = load32 buf 24;
  threadgroups_z = load32 buf 28;
  threads_per_group_x = load32 buf 32;
  threads_per_group_y = load32 buf 36;
  threads_per_group_z = load32 buf 40;
}

abbrev pub sizeof_compute_dispatch : ℕ
sizeof_compute_dispatch = 44

-- `gravity_cmd_blit_copy_buffer_t`
pub record CmdBlitCopyBuffer : Type 0 where
  pub hdr : CmdHeader
  pub cmdbuf : ℕ
  pub src_buffer : ℕ
  pub src_offset : ℕ
  pub dst_buffer : ℕ
  pub dst_offset : ℕ
  pub size : ℕ

unfoldable pub load_blit_copy_buffer : List ℕ → CmdBlitCopyBuffer
load_blit_copy_buffer buf = record {
  hdr = load_header buf;
  cmdbuf = load32 buf 16;
  src_buffer = load32 buf 20;
  src_offset = load64 buf 24;
  dst_buffer = load32 buf 32;
  dst_offset = load64 buf 36;
  size = load64 buf 44;
}

abbrev pub sizeof_blit_copy_buffer : ℕ
sizeof_blit_copy_buffer = 52

-- `gravity_cmd_blit_copy_texture_t`
pub record CmdBlitCopyTexture : Type 0 where
  pub hdr : CmdHeader
  pub cmdbuf : ℕ
  pub src_texture : ℕ
  pub src_slice : ℕ
  pub src_level : ℕ
  pub src_origin : Origin
  pub src_size : Size
  pub dst_texture : ℕ
  pub dst_slice : ℕ
  pub dst_level : ℕ
  pub dst_origin : Origin

unfoldable pub load_blit_copy_texture : List ℕ → CmdBlitCopyTexture
load_blit_copy_texture buf = record {
  hdr = load_header buf;
  cmdbuf = load32 buf 16;
  src_texture = load32 buf 20;
  src_slice = load32 buf 24;
  src_level = load32 buf 28;
  src_origin = load_origin buf 32;
  src_size = load_size buf 44;
  dst_texture = load32 buf 56;
  dst_slice = load32 buf 60;
  dst_level = load32 buf 64;
  dst_origin = load_origin buf 68;
}

abbrev pub sizeof_blit_copy_texture : ℕ
sizeof_blit_copy_texture = 80

-- `gravity_cmd_blit_copy_buf_to_tex_t`
pub record CmdBlitCopyBufToTex : Type 0 where
  pub hdr : CmdHeader
  pub cmdbuf : ℕ
  pub src_buffer : ℕ
  pub src_offset : ℕ
  pub src_bytes_per_row : ℕ
  pub src_bytes_per_image : ℕ
  pub src_size : Size
  pub dst_texture : ℕ
  pub dst_slice : ℕ
  pub dst_level : ℕ
  pub dst_origin : Origin

unfoldable pub load_blit_copy_buf_to_tex : List ℕ → CmdBlitCopyBufToTex
load_blit_copy_buf_to_tex buf = record {
  hdr = load_header buf;
  cmdbuf = load32 buf 16;
  src_buffer = load32 buf 20;
  src_offset = load64 buf 24;
  src_bytes_per_row = load32 buf 32;
  src_bytes_per_image = load32 buf 36;
  src_size = load_size buf 40;
  dst_texture = load32 buf 52;
  dst_slice = load32 buf 56;
  dst_level = load32 buf 60;
  dst_origin = load_origin buf 64;
}

abbrev pub sizeof_blit_copy_buf_to_tex : ℕ
sizeof_blit_copy_buf_to_tex = 76

-- `gravity_cmd_blit_generate_mipmaps_t`
pub record CmdBlitGenerateMipmaps : Type 0 where
  pub hdr : CmdHeader
  pub cmdbuf : ℕ
  pub texture : ℕ

unfoldable pub load_blit_generate_mipmaps : List ℕ → CmdBlitGenerateMipmaps
load_blit_generate_mipmaps buf = record {
  hdr = load_header buf;
  cmdbuf = load32 buf 16;
  texture = load32 buf 20;
}

abbrev pub sizeof_blit_generate_mipmaps : ℕ
sizeof_blit_generate_mipmaps = 24
