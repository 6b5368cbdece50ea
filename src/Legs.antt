-- ===== src/Legs.antt =====
-- Transit legs: src/tagpulse/services/legs.py scores one, src/tagpulse/workers/leg_tracker.py opens
-- and closes them.
pub mod Summary
pub mod Tracker
pub mod Excursion
pub mod Single
