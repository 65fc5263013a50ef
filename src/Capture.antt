-- ===== src/Capture.antt =====
-- The capture of frames and the forwarding of input: src/wayland_capture_hook.c, and the helper that it asks.
pub mod Protocol
pub mod Messages
pub mod Input
pub mod Helper
pub mod Frames
pub mod Bitblt
pub mod Install
