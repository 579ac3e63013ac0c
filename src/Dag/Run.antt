-- ===== src/Dag/Run.antt =====
-- `executeNode`, and `runNode` up to its write to the journal, which is a step of its own (Dag/Loop).
pub mod Spec
pub mod Retry
mod Examples
use mathlib.Core.Option.{get_or}
use agent_sdk.Common.{
  ℕ, ◌+◌, Bool, true, false, not, ◌&&◌, String, List, [], ◌∷◌, Option, none, some, ltb,
  if◌then◌else◌,
}
use agent_sdk.Common.Assoc.{Assoc, set}
use agent_sdk.Dag.{
  done, deferred, Status, pending, settled, skipped, DagNodeSpec, NodeRecord, Surroundings,
  NodeManifestEntry, Settings,
}
use agent_sdk.Dag.Records.{find}
use agent_sdk.Dag.Node.{
  is_own_timeout_deferral, resolve_retry_bound, call_executor, apply_outcome, run_map_over,
  run_best_of_n,
}

module _ {A : Type 0} where
  -- `byId.get(depId)?.output ?? null`
  unfoldable pub output_of : List (NodeRecord A) → String → Option A
  output_of rs id = elim (find id rs) [ none ↦ none | some r ↦ r.output ]

  -- The inputs of a node, by the ids of its dependencies.
  unfoldable pub node_inputs :
      List (NodeRecord A) → List String → Assoc (Option A) → Assoc (Option A)
  unfolding output_of
  node_inputs rs [] acc = acc
  node_inputs rs (d ∷ ds) acc = node_inputs rs ds (set d (output_of rs d) acc)

  pub runs : DagNodeSpec A → Assoc (Option A) → Bool
  runs spec inputs = elim spec.run_if [ none ↦ true | some test ↦ test inputs ]

  unfoldable pub attempt_node :
      Settings → Surroundings A → NodeRecord A → Option String → NodeRecord A
  attempt_node input s r (some dep) = run_map_over s.as_array s.of_array s.replies s.inputs dep r
  attempt_node input s r none =
      let samples = get_or r.spec.samples 1 in
      if ltb 1 samples
      then run_best_of_n input s.probe s.verifier s.replies samples r
      else apply_outcome (record r { attempts = 1 }) (call_executor r.spec (s.replies 0))

  pub execute_node : Settings → Surroundings A → NodeRecord A → NodeRecord A
  unfolding runs
  execute_node input s r =
      if runs r.spec s.inputs
      then attempt_node input s r r.spec.map_over
      else record r { status = settled deferred; reason = some skipped; output = none }

  -- An own-timeout deferral goes back to `pending` while a retry is left.
  unfoldable pub retry_or_settle : Settings → NodeRecord A → NodeRecord A
  retry_or_settle input r =
      if is_own_timeout_deferral r && ltb r.retries_used (resolve_retry_bound input r.spec)
      then record r {
        retries_used = r.retries_used + 1;
        status = pending;
        reason = none;
        output = none;
      }
      else r

  -- A journal entry that is not `done` is ignored.
  unfoldable pub run_node :
      Settings → Surroundings A → Option (NodeManifestEntry A) → NodeRecord A → NodeRecord A
  unfolding execute_node retry_or_settle
  run_node input s none r = retry_or_settle input (execute_node input s r)
  run_node input s (some e) r =
      let fresh = retry_or_settle input (execute_node input s r) in
      elim e.status [
        | done ↦ record r {
          status = settled done;
          output = e.output;
          reason = none;
          attempts = e.attempts;
        }
        | _ ↦ fresh
      ]
