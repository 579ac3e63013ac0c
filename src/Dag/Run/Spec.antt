-- ===== src/Dag/Run/Spec.antt =====
-- A run leaves the node's spec as it was, and execution the retries it has used, too.
use mathlib.Core.Option.{get_or}
use agent_sdk.Common.{◌≡◌, Option, none, some, arith, true, String, ◌∙◌}
use agent_sdk.Dag.{settled, failed, NodeRecord, Surroundings, NodeManifestEntry, Settings}
use agent_sdk.Dag.Node.{call_executor, is_own_timeout_deferral}
use agent_sdk.Dag.Node.Settles.{
  Settles, apply_outcome-Settles, run_map_over-Settles, run_best_of_n-Settles,
}
use agent_sdk.Dag.Records.{is_settled, one_running}
use agent_sdk.Dag.Run.{attempt_node, execute_node, retry_or_settle, run_node}

module _ {A : Type 0} where
  attempt_node-Settles :
      (input : Settings) (s : Surroundings A) (r : NodeRecord A) (dep : Option String)
      → Settles r (attempt_node input s r dep)
  unfolding attempt_node
  attempt_node-Settles input s r (some dep) = run_map_over-Settles s dep r
  attempt_node-Settles input s r none = ground (
    arith,
    run_best_of_n-Settles input s (get_or r.spec.samples 1) r,
    apply_outcome-Settles (record r { attempts = 1 }) (call_executor r.spec (s.replies 0)),
  )

  pub execute_node-Settles :
      (input : Settings) (s : Surroundings A) (r : NodeRecord A)
      → Settles r (execute_node input s r)
  unfolding execute_node
  execute_node-Settles input s r = ground (arith, attempt_node-Settles input s r r.spec.map_over)

  pub spec-retry_or_settle :
      (input : Settings) (r : NodeRecord A) → (retry_or_settle input r).spec ≡ r.spec
  unfolding retry_or_settle
  spec-retry_or_settle input r = ground arith

  pub spec-run_node :
      (input : Settings) (s : Surroundings A) (e : Option (NodeManifestEntry A)) (r : NodeRecord A)
      → (run_node input s e r).spec ≡ r.spec
  unfolding run_node
  spec-run_node input s none r =
      spec-retry_or_settle input (execute_node input s r) ∙ (execute_node-Settles input s r).0
  spec-run_node input s (some e) r =
      ground
        (arith, spec-retry_or_settle input (execute_node input s r), execute_node-Settles input s r)

  pub one_running-retry :
      (r : NodeRecord A) (input : Settings)
      → is_settled r.status ≡ true
      → one_running (retry_or_settle input r).status ≡ 0
  unfolding retry_or_settle
  one_running-retry r input h = ground arith

  pub one_running-execute_node :
      (input : Settings) (s : Surroundings A) (r : NodeRecord A)
      → one_running (execute_node input s r).status ≡ 0
  one_running-execute_node input s r = let h = (execute_node-Settles input s r).2 in ground arith

  pub retry-failed :
      (input : Settings) (r : NodeRecord A)
      → r.status ≡ settled failed
      → (retry_or_settle input r).status ≡ settled failed
  unfolding retry_or_settle is_own_timeout_deferral
  retry-failed input r h = ground arith

  -- A run never leaves the node running.
  pub one_running-run_node :
      (input : Settings) (s : Surroundings A) (e : Option (NodeManifestEntry A)) (r : NodeRecord A)
      → one_running (run_node input s e r).status ≡ 0
  unfolding run_node
  one_running-run_node input s none r =
      one_running-retry (execute_node input s r) input (execute_node-Settles input s r).2
  one_running-run_node input s (some e) r =
      ground
        (arith, one_running-retry (execute_node input s r) input (execute_node-Settles input s r).2)
