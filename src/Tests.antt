-- ===== src/Tests.antt =====
-- Concrete runs, one for each theorem.
mod Compact
mod Dedup
mod Limits
mod Presence
mod Tokens
mod Rfid
mod Legs
mod Usage
mod Outbox
mod Rules
mod EventBus
