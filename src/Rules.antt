-- ===== src/Rules.antt =====
-- src/tagpulse/rules/evaluator.py: conditions, the cooldown table and the handlers of the rule
-- evaluator. Queries, inserts and the bus are taken to succeed; an alert stands for the row that is
-- created and the event that is published with it, without its texts. `float` and `UUID` on texts
-- are parameters.
pub mod Conditions
pub mod Cooldown
pub mod Evaluator
pub mod Zones
pub mod Attempts
pub mod Requests
pub mod Suppression
pub mod Agreement
