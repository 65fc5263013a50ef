-- ===== src/Daemon.antt =====
-- The helper process of src/amf_helper.c.
pub mod Clients
pub mod Codec
pub mod Session
