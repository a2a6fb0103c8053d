-- ===== src/Formats.antt =====
-- Formats and enumerations: protocol/include/gravity_formats.h, protocol/src/gravity_formats.c and the
-- enumerations of protocol/include/gravity_protocol.h.
pub mod Metal
pub mod State
pub mod Vulkan
pub mod Pixel
pub mod Vertex
pub mod Convert
pub mod Lookup
pub mod Meaning
pub mod Range
