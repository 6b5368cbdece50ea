-- ===== src/Wire.antt =====
-- The tag-reads wire format, version 2 (src/tagpulse/ingestion/wm_wire_format.py).
pub mod Epc
pub mod Message
pub mod Compact
