-- ===== src/Capture/Helper.antt =====
-- The helper that serves frames and takes input on the Linux side: src/wayland_capture_helper.cpp.
pub mod Keys
pub mod Uinput
pub mod Eis
pub mod Bridge
pub mod Frames
pub mod Server
