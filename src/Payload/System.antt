-- ===== src/Payload/System.antt =====
-- The payloads of protocol/include/gravity_protocol.h: the commands of the connection, of command
-- buffers, of fences, of transfers and of the display. The structs are packed, a float is its 32
-- bits, and a reserved field is not read.
use gravity_gpu_project.Prelude.{ℕ, List, load16, load32}
use gravity_gpu_project.Payload.Load.{load64}
use gravity_gpu_project.Protocol.Header.{CmdHeader, load_header}

-- `gravity_cmd_hello_t`
pub record CmdHello : Type 0 where
  pub hdr : CmdHeader
  pub magic : ℕ
  pub version_major : ℕ
  pub version_minor : ℕ
  pub guest_features : ℕ

unfoldable pub load_hello : List ℕ → CmdHello
load_hello buf = record {
  hdr = load_header buf;
  magic = load32 buf 16;
  version_major = load16 buf 20;
  version_minor = load16 buf 22;
  guest_features = load32 buf 24;
}

abbrev pub sizeof_hello : ℕ
sizeof_hello = 44

-- `gravity_cmd_hello_response_t`
pub record CmdHelloResponse : Type 0 where
  pub hdr : CmdHeader
  pub magic : ℕ
  pub version_major : ℕ
  pub version_minor : ℕ
  pub host_features : ℕ
  pub max_texture_size : ℕ
  pub max_buffer_size : ℕ
  pub max_threads_per_group : ℕ

unfoldable pub load_hello_response : List ℕ → CmdHelloResponse
load_hello_response buf = record {
  hdr = load_header buf;
  magic = load32 buf 16;
  version_major = load16 buf 20;
  version_minor = load16 buf 22;
  host_features = load32 buf 24;
  max_texture_size = load32 buf 28;
  max_buffer_size = load32 buf 32;
  max_threads_per_group = load32 buf 36;
}

abbrev pub sizeof_hello_response : ℕ
sizeof_hello_response = 56

-- `gravity_cmd_cmdbuf_create_t`
pub record CmdCmdbufCreate : Type 0 where
  pub hdr : CmdHeader
  pub handle : ℕ

unfoldable pub load_cmdbuf_create : List ℕ → CmdCmdbufCreate
load_cmdbuf_create buf = record { hdr = load_header buf; handle = load32 buf 16 }

abbrev pub sizeof_cmdbuf_create : ℕ
sizeof_cmdbuf_create = 20

-- `gravity_cmd_cmdbuf_commit_t`
pub record CmdCmdbufCommit : Type 0 where
  pub hdr : CmdHeader
  pub handle : ℕ

unfoldable pub load_cmdbuf_commit : List ℕ → CmdCmdbufCommit
load_cmdbuf_commit buf = record { hdr = load_header buf; handle = load32 buf 16 }

abbrev pub sizeof_cmdbuf_commit : ℕ
sizeof_cmdbuf_commit = 20

-- `gravity_cmd_cmdbuf_completed_t`
pub record CmdCmdbufCompleted : Type 0 where
  pub hdr : CmdHeader
  pub handle : ℕ
  pub status : ℕ
  pub gpu_time_ns : ℕ

unfoldable pub load_cmdbuf_completed : List ℕ → CmdCmdbufCompleted
load_cmdbuf_completed buf = record {
  hdr = load_header buf;
  handle = load32 buf 16;
  status = load32 buf 20;
  gpu_time_ns = load64 buf 24;
}

abbrev pub sizeof_cmdbuf_completed : ℕ
sizeof_cmdbuf_completed = 32

-- `gravity_cmd_create_fence_t`
pub record CmdCreateFence : Type 0 where
  pub hdr : CmdHeader
  pub handle : ℕ

unfoldable pub load_create_fence : List ℕ → CmdCreateFence
load_create_fence buf = record { hdr = load_header buf; handle = load32 buf 16 }

abbrev pub sizeof_create_fence : ℕ
sizeof_create_fence = 20

-- `gravity_cmd_wait_fence_t`
pub record CmdWaitFence : Type 0 where
  pub hdr : CmdHeader
  pub fence : ℕ
  pub timeout_ns : ℕ

unfoldable pub load_wait_fence : List ℕ → CmdWaitFence
load_wait_fence buf = record {
  hdr = load_header buf;
  fence = load32 buf 16;
  timeout_ns = load64 buf 20;
}

abbrev pub sizeof_wait_fence : ℕ
sizeof_wait_fence = 28

-- `gravity_cmd_upload_data_t`
pub record CmdUploadData : Type 0 where
  pub hdr : CmdHeader
  pub target : ℕ
  pub target_offset : ℕ
  pub data_offset : ℕ
  pub data_size : ℕ

unfoldable pub load_upload_data : List ℕ → CmdUploadData
load_upload_data buf = record {
  hdr = load_header buf;
  target = load32 buf 16;
  target_offset = load64 buf 20;
  data_offset = load64 buf 28;
  data_size = load32 buf 36;
}

abbrev pub sizeof_upload_data : ℕ
sizeof_upload_data = 44

-- `gravity_cmd_present_t`
pub record CmdPresent : Type 0 where
  pub hdr : CmdHeader
  pub texture : ℕ

unfoldable pub load_present : List ℕ → CmdPresent
load_present buf = record { hdr = load_header buf; texture = load32 buf 16 }

abbrev pub sizeof_present : ℕ
sizeof_present = 24

-- `gravity_cmd_resize_display_t`
pub record CmdResizeDisplay : Type 0 where
  pub hdr : CmdHeader
  pub width : ℕ
  pub height : ℕ
  pub pixel_format : ℕ

unfoldable pub load_resize_display : List ℕ → CmdResizeDisplay
load_resize_display buf = record {
  hdr = load_header buf;
  width = load32 buf 16;
  height = load32 buf 20;
  pixel_format = load32 buf 24;
}

abbrev pub sizeof_resize_display : ℕ
sizeof_resize_display = 32
