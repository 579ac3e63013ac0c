-- ===== src/Dag/Node.antt =====
-- The run of one node: `callExecutor`, `applyOutcome`, `runMapOver`, `runBestOfN`, `executeNode`
-- and the retry of `runNode`. The executor's replies, by attempt, the verifier, and how a value
-- reads as an array are parameters; progress events are left out.
pub mod Settles
pub mod Outcomes
pub mod Sampling
mod Examples
use mathlib.Core.Option.{get_or}
use mathlib.Core.Option
use text.Mathlib.Text.{starts_with}
use agent_sdk.Common.{
  ℕ, zero, suc, ◌+◌, ◌-◌, ◌/◌, min, max, Bool, true, false, not, ◌&&◌, String, List, [], ◌∷◌, ◌++◌,
  Option, none, some, length, ltb, leb, ◌==◌, if◌then◌else◌,
}
use agent_sdk.Common.Assoc.{Assoc, get}
use agent_sdk.Dag.{
  NodeStatus, done, deferred, failed, Status, pending, running, settled, Reason, own_timeout,
  skipped, not_an_array, all_children_failed, some_children_failed, no_candidates, rejected_all,
  said, DagNodeSpec, NodeRecord, NodeOutcome, Answer, returned, threw, Reply, VerifierVerdict,
  AdaptiveBestOfNPolicy, Settings,
}

-- The scheduler's own texts begin with "timeout:" in one case only; a text of the executor may.
unfoldable pub is_own_timeout : Reason → Bool
is_own_timeout (own_timeout ms) = true
is_own_timeout (said text) = starts_with text "timeout:"
is_own_timeout _ = false

-- The size of the first batch; `Math.ceil(samples / 2)` is `(samples + 1) / 2`.
pub phase1_size : Option AdaptiveBestOfNPolicy → ℕ → ℕ
phase1_size none samples = samples
phase1_size (some p) samples =
    min samples (max 1 (get_or p.initial_batch (max 2 ((samples + 1) / 2))))

-- `policy?.earlyAcceptThreshold ?? 0.85`
pub early_threshold : Option AdaptiveBestOfNPolicy → ℕ
early_threshold none = 850
early_threshold (some p) = get_or p.early_accept_threshold 850

module _ {A : Type 0} where
  unfoldable pub is_own_timeout_deferral : NodeRecord A → Bool
  unfolding is_own_timeout
  is_own_timeout_deferral r = elim r.status [
    | settled s ↦ elim s [
      | deferred ↦ elim r.reason [ none ↦ false | some text ↦ is_own_timeout text ]
      | _ ↦ false
    ]
    | _ ↦ false
  ]

  unfoldable pub resolve_retry_bound : Settings → DagNodeSpec A → ℕ
  resolve_retry_bound input spec = elim spec.max_timeout_retries [
    | some n ↦ n
    | none ↦ get_or input.default_max_timeout_retries 0
  ]

  unfoldable pub call_executor : DagNodeSpec A → Reply A → NodeOutcome A
  call_executor spec reply =
      let ms = get_or spec.timeout_ms 0 in
      if ltb 0 ms && reply.timer_won
      then record { status = deferred; output = none; reason = some (own_timeout ms) }
      else elim reply.answer [
        | returned status output text ↦ record {
          status = status;
          output = output;
          reason = Option.map said text;
        }
        | threw text ↦ record { status = failed; output = none; reason = some (said text) }
      ]

  unfoldable pub apply_outcome : NodeRecord A → NodeOutcome A → NodeRecord A
  apply_outcome r o = elim o.status [
    | done ↦ record r { status = settled done; output = o.output; reason = none }
    | s ↦ record r { status = settled s; output = none; reason = o.reason }
  ]

  -- The outputs of the `done` outcomes among attempts `start`, …, `start + count - 1`.
  pub done_outputs : DagNodeSpec A → (ℕ → Reply A) → ℕ → ℕ → List (Option A)
  done_outputs spec replies start zero = []
  done_outputs spec replies start (suc count) =
      let rest = done_outputs spec replies (suc start) count in
      let o = call_executor spec (replies start) in
      elim o.status [ done ↦ o.output ∷ rest | _ ↦ rest ]

  -- The outputs that are not null.
  pub non_null : List (Option A) → List A
  non_null [] = []
  non_null (none ∷ os) = non_null os
  non_null (some a ∷ os) = a ∷ non_null os

  pub run_batch : DagNodeSpec A → (ℕ → Reply A) → ℕ → ℕ → List A
  unfolding non_null done_outputs
  run_batch spec replies start count = non_null (done_outputs spec replies start count)

  pub settle_failed : NodeRecord A → Reason → NodeRecord A
  settle_failed r why = record r { status = settled failed; output = none; reason = some why }

  -- The array that the upstream output holds, if it is one.
  pub resolve_array : (A → Option (List A)) → Option (Option A) → Option (List A)
  resolve_array as_array (some (some v)) = as_array v
  resolve_array as_array _ = none

  -- A fan-out over an array of `width` elements, given the children's outputs.
  pub aggregate : (List (Option A) → A) → ℕ → List (Option A) → NodeRecord A → NodeRecord A
  unfolding settle_failed
  aggregate of_array width succeeded r =
      let survivors = length succeeded in
      if width == 0
      then record r {
        status = settled done;
        output = some (of_array []);
        reason = none;
        attempts = width;
      }
      else if survivors == 0
      then settle_failed (record r { attempts = width }) (all_children_failed width)
      else record r {
        status = settled done;
        output = some (of_array succeeded);
        reason =
            if survivors == width
            then none
            else some (some_children_failed (width - survivors) width);
        attempts = width;
      }

  pub run_map_over :
      (A → Option (List A))
      → (List (Option A) → A)
      → (ℕ → Reply A)
      → Assoc (Option A)
      → String
      → NodeRecord A
      → NodeRecord A
  unfolding done_outputs settle_failed aggregate resolve_array
  run_map_over as_array of_array replies inputs dep r =
      elim (resolve_array as_array (get dep inputs)) [
        | none ↦ settle_failed r (not_an_array dep)
        | some elements ↦
            let width = length elements in
            aggregate of_array width (done_outputs r.spec replies 0 width) r
      ]

  -- `settle` of runBestOfN
  pub settle_verdict : NodeRecord A → ℕ → VerifierVerdict A → NodeRecord A
  unfolding settle_failed
  settle_verdict r candidates v = elim v.accepted [
    | none ↦ settle_failed r (rejected_all candidates v.reason)
    | some a ↦ record r { status = settled done; output = some a; reason = none }
  ]

  -- An explicit score at or over the policy's threshold, on an accepted candidate.
  pub is_confident : ℕ → VerifierVerdict A → Bool
  is_confident threshold v = elim v.accepted [
    | none ↦ false
    | some a ↦ elim v.accepted_score [ none ↦ false | some score ↦ leb threshold score ]
  ]

  -- The verdict on a list of candidates that ran as `attempts` attempts; none is fail-closed.
  pub judge : (List A → VerifierVerdict A) → List A → ℕ → NodeRecord A → NodeRecord A
  unfolding settle_failed settle_verdict
  judge verifier candidates ran r =
      let r' = record r { attempts = ran } in
      if length candidates == 0
      then settle_failed r' (no_candidates ran)
      else settle_verdict r' (length candidates) (verifier candidates)

  -- After a first batch smaller than `samples`: a confident probe of it settles the node, else the
  -- rest of the samples runs, and the verifier judges all candidates.
  pub probe_or_escalate :
      Settings
      → (List A → VerifierVerdict A)
      → (List A → VerifierVerdict A)
      → (ℕ → Reply A)
      → ℕ
      → List A
      → NodeRecord A
      → NodeRecord A
  unfolding run_batch settle_verdict phase1_size is_confident early_threshold judge
  probe_or_escalate input probe verifier replies samples first r =
      let size = phase1_size input.best_of_n samples in
      let early = probe first in
      if not (length first == 0) && is_confident (early_threshold input.best_of_n) early
      then settle_verdict (record r { attempts = size }) (length first) early
      else judge verifier (first ++ run_batch r.spec replies size (samples - size)) samples r

  -- `probe` and `verifier` are the verifier at its first and its last call: two calls of it need
  -- not agree.
  pub run_best_of_n :
      Settings
      → (List A → VerifierVerdict A)
      → (List A → VerifierVerdict A)
      → (ℕ → Reply A)
      → ℕ
      → NodeRecord A
      → NodeRecord A
  unfolding probe_or_escalate judge run_batch phase1_size
  run_best_of_n input probe verifier replies samples r =
      let size = phase1_size input.best_of_n samples in
      let first = run_batch r.spec replies 0 size in
      if ltb size samples
      then probe_or_escalate input probe verifier replies samples first r
      else judge verifier first size r
