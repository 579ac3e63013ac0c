-- ===== src/Lib.antt =====
-- A model of the core of the agent SDK, and what holds of it.
--
-- The SDK runs agents: a DAG scheduler (src/orchestration/dag) runs nodes of delegated work in
-- dependency order, through an executor that the caller injects; wrappers (src/resilience) and a
-- worker pool (src/orchestration/bulkhead.ts) guard calls of unreliable services; patterns
-- (src/patterns) guard a session; stores and channels (src/auth, src/remote) let other parties in.
--
--   * Common: lists, tests, keys, an insertion-ordered map (a JavaScript Map) and texts.
--   * Dag: src/orchestration/dag/scheduler.ts, with the types of contracts.ts beside it.
--     Dag/Records is `byId`. Dag/Validate is what runDag checks first: buildRecords,
--     assertNoMissingDeps, assertNoMapOverMisuse and assertAcyclic (Kahn's algorithm); the
--     acyclicity that it shows is what Dag/Loop/Settling needs. Dag/Node is callExecutor,
--     applyOutcome, runMapOver and runBestOfN; Dag/Run is executeNode and runNode; Dag/Loop is
--     the parts of a turn of execute, and Dag/Loop/Steps what the nodes in flight do meanwhile, their
--     promises that reject included. Dag/Replan is validateReplan and spliceReplan, and Dag/Replanning
--     the whole loop; Dag/Manifest is what runDag returns.
--   * Orchestration: Pool is createBulkhead of src/orchestration/bulkhead.ts, and Idempotency is
--     withIdempotency of idempotency.ts beside it.
--   * Patterns: SessionBreaker is src/patterns/circuit-breaker, Escalation is
--     src/patterns/escalation.
--   * Resilience: Breaker is src/resilience/circuit-breaker.ts, Bulkhead is bulkhead.ts beside it,
--     and Idempotent is idempotent.ts.
--   * Auth: NonceStore is InMemoryNonceStore of src/auth/nonce-store.ts. VerifyEvent is
--     src/auth/verify-event.ts; it uses a nonce store through the record NonceOps and its laws, which
--     VerifyEvent/Memory shows of InMemoryNonceStore.
--   * Economy/Fleet: FleetCircuitBreaker of src/economy/circuit-breaker.ts; Economy/Fleet/Ledger sets
--     it against the list of all costs.
--   * Remote: Veto is InMemoryVetoChannel of src/remote/veto.ts, and Approval is
--     createRemoteApprovalChannel of approval.ts beside it.
--   * Proof: Chain is buildChain and verifyChain of src/proof/chain.ts, and ReceiptQueue is
--     InMemoryReceiptQueue of receipt-queue.ts beside it.
--   * Acp/Framing: src/acp/framing.ts, encodeAcpFrame and AcpFrameDecoder.
--   * Retry: src/retry/index.ts.
--   * Compute/Battery: runVerifierBattery of src/compute/battery/battery.ts, and batteryActionGate of
--     action-gate.ts beside it; it hashes what it judges, and Trace/Canonical (src/trace/canonical.ts) says
--     which values have a hash. Delegation: src/delegation/delegate.ts, which puts both of its
--     decisions, the grant and each call of a child, to the battery.
--
-- The executor, the verifier, the replanner and the journal are parameters: a run of a node is given
-- what they reply. So are the digests of payloads, the MACs of events and queue entries, Date.parse and
-- TextDecoder. Scores are in thousandths, the battery's composite score is an exact fraction, times
-- are in milliseconds and the delays of a retry in 4000ths of one, as natural numbers. Three loops run on
-- fuel: the blocking fixpoint on one pass more than there are records, which is enough since every
-- pass but the last defers a node; Kahn's loop on as many turns as there are nodes, which is
-- enough since a node is queued once; and the loop over a RetryContext, on as many turns as
-- there are attempts. Where promises overlap, the code between two awaits is one step,
-- and a relation lets the steps interleave.
--
-- Not modelled: progress and log events, which the code only emits; a write to the journal that rejects
-- after the replanner has re-used the record of its node; the text of the canonical form; the root hash; and the SDK's other modules, which mostly call models and services.
pub mod Acp
pub mod Auth
pub mod Common
pub mod Compute
pub mod Dag
pub mod Delegation
pub mod Economy
pub mod Orchestration
pub mod Patterns
pub mod Proof
pub mod Remote
pub mod Resilience
pub mod Retry
pub mod Trace
