-- ===== src/Amf/Outputs.antt =====
-- The ring of finished packets of a `BridgeComponent` in src/amfrt_bridge.c: lines 672-680 and
-- 1078-1091, and the packets themselves, lines 75-83 and 359-374.
mod Ring
pub mod Fifo
unfoldable pub use Ring.*
