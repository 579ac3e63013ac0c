-- ===== src/Resilience.antt =====
-- Wrappers that guard calls of unreliable services: src/resilience.
pub mod Breaker
pub mod Bulkhead
pub mod Idempotent
