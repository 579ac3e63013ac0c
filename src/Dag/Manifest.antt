-- ===== src/Dag/Manifest.antt =====
-- `runDag` after `execute`: the manifest of the nodes, its summary, and the run's status; also
-- snapshotManifest, which maps the records alike. The root hash is that of the caller's hash.
pub mod Totals
use agent_sdk.Dag.Loop.{is_pending}
use agent_sdk.Common.{length, if◌then◌else◌, ◌∷◌, leb, ◌≡◌, zero, suc, arith, ◌+◌, []}
use agent_sdk.Dag.{
  NodeStatus, done, deferred, failed, Status, pending, running, settled, Reason, NodeRecord,
  NodeManifestEntry, Option, String, ℕ, Bool, true, List, false,
}

-- A text of the manifest's own, or the record's.
pub data ManifestReason : Type 0 where
  not_scheduled : ManifestReason
  recorded : Option Reason → ManifestReason

pub record Entry (A : Type 0) : Type 0 where
  pub id : String
  pub status : Status
  pub reason : ManifestReason
  pub output : Option A
  pub depends_on : List String
  pub attempts : ℕ

pub record Summary : Type 0 where
  pub total : ℕ
  pub done_count : ℕ
  pub deferred_count : ℕ
  pub failed_count : ℕ

pub data WorkflowStatus : Type 0 where
  run_done run_failed : WorkflowStatus

abbrev same_status : NodeStatus → Status → Bool
same_status done (settled done) = true
same_status deferred (settled deferred) = true
same_status failed (settled failed) = true
same_status _ _ = false

module _ {A : Type 0} where
  -- A record that is still pending counts as deferred; one that runs would keep its status.
  abbrev pub entry : NodeRecord A → Entry A
  entry r =
      let as_pending = is_pending r.status in
      record {
        id = r.spec.id;
        status = if as_pending then settled deferred else r.status;
        reason = if as_pending then not_scheduled else recorded r.reason;
        output = r.output;
        depends_on = r.spec.depends_on;
        attempts = r.attempts;
      }

  abbrev pub entries : List (NodeRecord A) → List (Entry A)
  entries [] = []
  entries (r ∷ rs) = entry r ∷ entries rs

  -- `manifestNodes.filter((n) => n.status === …).length`
  abbrev pub how_many : NodeStatus → List (Entry A) → ℕ
  how_many s [] = 0
  how_many s (e ∷ es) = if same_status s e.status then suc (how_many s es) else how_many s es

  unfoldable pub summarize : List (Entry A) → Summary
  summarize es = record {
    total = length es;
    done_count = how_many done es;
    deferred_count = how_many deferred es;
    failed_count = how_many failed es;
  }

  unfoldable pub workflow_status : List (Entry A) → WorkflowStatus
  unfolding summarize
  workflow_status es = if leb 1 (summarize es).done_count then run_done else run_failed
