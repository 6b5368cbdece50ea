-- ===== src/Edge.antt =====
-- The edge client of a Raspberry Pi (clients/pi/tagpulse_edge).
pub mod Limits
pub mod Producer
pub mod Dedup
pub mod Outbox
