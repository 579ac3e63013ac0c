-- ===== src/Patterns.antt =====
-- The patterns that guard an agent's session: src/patterns.
pub mod SessionBreaker
pub mod Escalation
