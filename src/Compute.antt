-- ===== src/Compute.antt =====
-- Compute strategies: src/compute.
pub mod Battery
