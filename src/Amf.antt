-- ===== src/Amf.antt =====
-- The AMF runtime that src/amfrt_bridge.c gives to the client: results, property stores, reference
-- counts and the encoder component. The build defines BRIDGE_NATIVE_PE (Makefile), so that the
-- branches for the other build are no part of it.
pub mod Results
pub mod Store
pub mod Outputs
pub mod Component
