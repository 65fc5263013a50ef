-- ===== src/Dxva.antt =====
-- src/dxva_bridge.c: the video decoder that a Direct3D 11 application sees, which sends every frame
-- to the helper and uploads the decoded picture.
pub mod Buffers
pub mod Decoder
pub mod Upload
pub mod EndFrame
