-- ===== src/Orchestration.antt =====
-- The orchestration layer's worker pool, src/orchestration/bulkhead.ts, and its shared calls,
-- src/orchestration/idempotency.ts. The scheduler is in Dag.
pub mod Idempotency
pub mod Pool
