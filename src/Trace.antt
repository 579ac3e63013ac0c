-- ===== src/Trace.antt =====
-- Traces of runs: src/trace.
pub mod Canonical
