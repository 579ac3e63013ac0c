-- ===== src/Dag/Node/Outcomes.antt =====
-- What passes for an own timeout.
use agent_sdk.Common.{◌≡◌, arith, String, some, Option, false}
use agent_sdk.Dag.{NodeRecord, DagNodeSpec, returned, deferred}
use agent_sdk.Dag.Node.{apply_outcome, call_executor, is_own_timeout_deferral, starts_with}

module _ {A : Type 0} where
  -- A deferral that the executor returns passes for an own timeout exactly if its text begins so.
  pub is_own_timeout_of_returned :
      (r : NodeRecord A) (spec : DagNodeSpec A) (output : Option A) (text : String)
      → is_own_timeout_deferral (
          apply_outcome r (
            call_executor spec
              (record { timer_won = false; answer = returned deferred output (some text) })))
        ≡ starts_with text "timeout:"
  unfolding apply_outcome call_executor is_own_timeout_deferral
  is_own_timeout_of_returned r spec output text = ground arith
