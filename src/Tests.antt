-- ===== src/Tests.antt =====
-- The theorems at concrete inputs, a module for each part.
mod Coding
mod Capturing
mod Encoder
mod Decoding
mod Launching
mod Serving
mod Helping
mod Hooking
