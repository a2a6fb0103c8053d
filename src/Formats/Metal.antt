-- ===== src/Formats/Metal.antt =====
-- The Metal-side enumerations of formats and resources in protocol/include/gravity_protocol.h: the
-- constructors, and the numbers that stand for them on the wire.
use gravity_gpu_project.Prelude.{ℕ}

pub data PixelFormat : Type 0 where
  pixel_invalid pixel_a8_unorm pixel_r8_unorm pixel_r8_snorm pixel_r8_uint : PixelFormat
  pixel_r16_uint pixel_r16_float pixel_rg8_unorm pixel_rg8_snorm : PixelFormat
  pixel_r32_uint pixel_r32_float pixel_rg16_uint pixel_rg16_float : PixelFormat
  pixel_rgba8_unorm pixel_rgba8_unorm_srgb pixel_rgba8_snorm pixel_rgba8_uint : PixelFormat
  pixel_bgra8_unorm pixel_bgra8_unorm_srgb pixel_rgb10a2_unorm : PixelFormat
  pixel_rg32_uint pixel_rg32_float pixel_rgba16_uint pixel_rgba16_float : PixelFormat
  pixel_rgba32_uint pixel_rgba32_float pixel_depth16_unorm : PixelFormat
  pixel_depth32_float pixel_stencil8 pixel_depth24_stencil8 : PixelFormat
  pixel_depth32_float_stencil8 : PixelFormat

abbrev pub pixel_format : PixelFormat → ℕ
pixel_format pixel_invalid = 0
pixel_format pixel_a8_unorm = 1
pixel_format pixel_r8_unorm = 10
pixel_format pixel_r8_snorm = 12
pixel_format pixel_r8_uint = 13
pixel_format pixel_r16_uint = 23
pixel_format pixel_r16_float = 25
pixel_format pixel_rg8_unorm = 30
pixel_format pixel_rg8_snorm = 32
pixel_format pixel_r32_uint = 53
pixel_format pixel_r32_float = 55
pixel_format pixel_rg16_uint = 63
pixel_format pixel_rg16_float = 65
pixel_format pixel_rgba8_unorm = 70
pixel_format pixel_rgba8_unorm_srgb = 71
pixel_format pixel_rgba8_snorm = 72
pixel_format pixel_rgba8_uint = 73
pixel_format pixel_bgra8_unorm = 80
pixel_format pixel_bgra8_unorm_srgb = 81
pixel_format pixel_rgb10a2_unorm = 90
pixel_format pixel_rg32_uint = 105
pixel_format pixel_rg32_float = 107
pixel_format pixel_rgba16_uint = 113
pixel_format pixel_rgba16_float = 115
pixel_format pixel_rgba32_uint = 123
pixel_format pixel_rgba32_float = 125
pixel_format pixel_depth16_unorm = 250
pixel_format pixel_depth32_float = 252
pixel_format pixel_stencil8 = 253
pixel_format pixel_depth24_stencil8 = 255
pixel_format pixel_depth32_float_stencil8 = 260

pub data TextureType : Type 0 where
  texture_1d texture_1d_array texture_2d texture_2d_array texture_2d_ms : TextureType
  texture_cube texture_cube_array texture_3d : TextureType

abbrev pub texture_type : TextureType → ℕ
texture_type texture_1d = 0
texture_type texture_1d_array = 1
texture_type texture_2d = 2
texture_type texture_2d_array = 3
texture_type texture_2d_ms = 4
texture_type texture_cube = 5
texture_type texture_cube_array = 6
texture_type texture_3d = 7

pub data StorageMode : Type 0 where
  storage_shared storage_managed storage_private storage_memoryless : StorageMode

abbrev pub storage_mode : StorageMode → ℕ
storage_mode storage_shared = 0
storage_mode storage_managed = 1
storage_mode storage_private = 2
storage_mode storage_memoryless = 3

pub data VertexFormat : Type 0 where
  vertex_invalid vertex_float vertex_float2 vertex_float3 vertex_float4 : VertexFormat
  vertex_uchar4 vertex_uchar4_norm vertex_short2 vertex_short4 vertex_half2 : VertexFormat
  vertex_half4 vertex_int vertex_int2 vertex_int3 vertex_int4 vertex_uint : VertexFormat

abbrev pub vertex_format : VertexFormat → ℕ
vertex_format vertex_invalid = 0
vertex_format vertex_float = 28
vertex_format vertex_float2 = 29
vertex_format vertex_float3 = 30
vertex_format vertex_float4 = 31
vertex_format vertex_uchar4 = 45
vertex_format vertex_uchar4_norm = 46
vertex_format vertex_short2 = 52
vertex_format vertex_short4 = 54
vertex_format vertex_half2 = 56
vertex_format vertex_half4 = 58
vertex_format vertex_int = 33
vertex_format vertex_int2 = 34
vertex_format vertex_int3 = 35
vertex_format vertex_int4 = 36
vertex_format vertex_uint = 37
