-- ===== src/H264.antt =====
-- The H.264 parameter sets that src/dxva_bridge.c puts in front of a slice: the bit writer, the
-- NAL unit framing, and the sequence and picture parameter sets.
pub mod Writer
pub mod Golomb
pub mod Nal
pub mod Params
