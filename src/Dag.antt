-- ===== src/Dag.antt =====
-- The DAG scheduler: src/orchestration/dag/scheduler.ts, with the types of contracts.ts.
pub mod Records
pub mod Samples
pub mod Node
pub mod Run
pub mod Loop
pub mod Validate
pub mod Replan
pub mod Replanning
pub mod Manifest
use agent_sdk.Common.{ℕ, Bool, true, false, String, List, Option, none, some}
use agent_sdk.Common.Assoc.{Assoc}

pub data NodeStatus : Type 0 where
  done deferred failed : NodeStatus

-- A record's status: a node starts `pending`, and `execute` marks it `running` when it dispatches it.
pub data Status : Type 0 where
  pending running : Status
  settled : NodeStatus → Status

-- The texts that validateReplan rejects with.
pub data Rejection : Type 0 where
  empty_replan empty_node_id introduces_cycle : Rejection
  no_reuse reused_twice not_last : Rejection
  duplicate_node collides self_dependent : String → Rejection
  unknown_node : String → String → Rejection

-- The texts of `reason`, by the place that makes them; `said` is a text of the executor's own.
pub data Reason : Type 0 where
  own_timeout : ℕ → Reason
  upstream : String → NodeStatus → Reason
  skipped cancelled unresolved : Reason
  not_an_array : String → Reason
  all_children_failed : ℕ → Reason
  some_children_failed : ℕ → ℕ → Reason
  no_candidates : ℕ → Reason
  rejected_all : ℕ → String → Reason
  said : String → Reason
  replan_error : Reason → String → Reason
  replan_rejected : Reason → Rejection → Reason

-- What the scheduler reads of a node. `depends_on` is `dependsOn ?? []`.
pub record DagNodeSpec (A : Type 0) : Type 0 where
  pub id : String
  pub depends_on : List String
  pub map_over : Option String
  pub samples : Option ℕ
  pub timeout_ms : Option ℕ
  pub run_if : Option (Assoc (Option A) → Bool)
  pub max_timeout_retries : Option ℕ

pub record NodeRecord (A : Type 0) : Type 0 where
  pub spec : DagNodeSpec A
  pub status : Status
  pub reason : Option Reason
  pub output : Option A
  pub attempts : ℕ
  pub retries_used : ℕ

pub record NodeOutcome (A : Type 0) : Type 0 where
  pub status : NodeStatus
  pub output : Option A
  pub reason : Option Reason

-- What a call of the executor does: it returns a status, an output and a reason, or throws; `timer_won` says which side of the race with the node's own
-- timer settles first, where that timer is armed.
pub data Answer (A : Type 0) : Type 0 where
  returned : NodeStatus → Option A → Option String → Answer A
  threw : String → Answer A

pub record Reply (A : Type 0) : Type 0 where
  pub timer_won : Bool
  pub answer : Answer A

-- A score is in thousandths.
pub record VerifierVerdict (A : Type 0) : Type 0 where
  pub accepted : Option A
  pub reason : String
  pub accepted_score : Option ℕ

pub record AdaptiveBestOfNPolicy : Type 0 where
  pub initial_batch : Option ℕ
  pub early_accept_threshold : Option ℕ

-- The parts of `DagRunInput` that a node's run reads.
pub record Settings : Type 0 where
  pub default_max_timeout_retries : Option ℕ
  pub best_of_n : Option AdaptiveBestOfNPolicy

-- What a node's run is given: the upstream outputs, the executor's replies by attempt, the verifier
-- at its first and at its last call, and how values read as arrays.
pub record Surroundings (A : Type 0) : Type 0 where
  pub inputs : Assoc (Option A)
  pub replies : ℕ → Reply A
  pub probe : List A → VerifierVerdict A
  pub verifier : List A → VerifierVerdict A
  pub as_array : A → Option (List A)
  pub of_array : List (Option A) → A

pub record NodeManifestEntry (A : Type 0) : Type 0 where
  pub id : String
  pub status : NodeStatus
  pub reason : Option Reason
  pub output : Option A
  pub depends_on : List String
  pub attempts : ℕ
