-- ===== src/Dag/Run/Retry.antt =====
-- Own-timeout retries: they are bounded, and what counts as an own timeout.
use agent_sdk.Dag.Node.Outcomes.{is_own_timeout_of_returned}
use text.Mathlib.Text.{starts_with}
use agent_sdk.Dag.Records.{is_settled}
use agent_sdk.Common.{
  zero, ℕ, ◌+◌, ◌≡◌, arith, Option, none, ◌<◌, String, false, true, some, suc, if◌then◌else◌,
  Bool-cases, inl, inr, ap, ◌∙◌,
}
use agent_sdk.Dag.{
  NodeRecord, Settings, Surroundings, returned, deferred, pending, DagNodeSpec, Assoc,
}
use agent_sdk.Dag.Run.{
  run_node, resolve_retry_bound, execute_node, attempt_node, apply_outcome, call_executor, runs,
  get_or, retry_or_settle, is_own_timeout_deferral,
}
use agent_sdk.Dag.Run.Spec.{execute_node-Settles, spec-run_node}

module _ {A : Type 0} where
  -- A run that puts the node back to pending uses up one retry, within the bound.
  pub retry_uses_one :
      (input : Settings) (s : Surroundings A) (r : NodeRecord A)
      → is_settled (run_node input s none r).status ≡ false
      → ((run_node input s none r).retries_used ≡ r.retries_used + 1)
        × (r.retries_used < resolve_retry_bound input r.spec)
  unfolding run_node
  retry_uses_one input s r h = ground (arith, execute_node-Settles input s r)

  -- The runs of a node that no journal knows, one after the other while it comes back pending.
  pub rerun : Settings → (ℕ → Surroundings A) → ℕ → NodeRecord A → NodeRecord A
  rerun input s zero r = r
  rerun input s (suc n) r =
      let r' = run_node input (s n) none r in
      let again = rerun input s n r' in if is_settled r'.status then r' else again

  -- A node settles after at most one run more than its retry bound, whatever its executor does.
  pub rerun_settles :
      (input : Settings) (s : ℕ → Surroundings A) (n : ℕ) (r : NodeRecord A)
      → resolve_retry_bound input r.spec < r.retries_used + n
      → 0 < n
      → is_settled (rerun input s n r).status ≡ true
  unfolding rerun
  rerun_settles input s zero r h p = absurd (omega arith)
  rerun_settles input s (suc n) r h p =
      elim (Bool-cases (is_settled (run_node input (s n) none r).status)) [
        | inl e ↦ rw e e
        | inr e ↦
            (let u = retry_uses_one input (s n) r e in
              rw e (
                rerun_settles input s n (run_node input (s n) none r)
                  (rw (spec-run_node input (s n) none r) (omega (arith, u.0, u.1)))
                  (omega (arith, u.1))))
      ]

  runs_always :
      (spec : DagNodeSpec A) (inputs : Assoc (Option A))
      → spec.run_if ≡ none
      → runs spec inputs ≡ true
  unfolding runs
  runs_always spec inputs h = rw (h, runs)

  attempt_single :
      (input : Settings) (s : Surroundings A) (r : NodeRecord A) (dep : Option String)
      → dep ≡ none
      → r.spec.samples ≡ none
      → attempt_node input s r dep
        ≡ apply_outcome (record r { attempts = 1 }) (call_executor r.spec (s.replies 0))
  unfolding attempt_node
  attempt_single input s r (some d) h c = cc
  attempt_single input s r none h c =
      let one : get_or r.spec.samples 1 ≡ 1 = ap (λ (o : Option ℕ). get_or o 1) c in
      ground (arith, one)

  execute_single :
      (input : Settings) (s : Surroundings A) (r : NodeRecord A)
      → r.spec.run_if ≡ none
      → r.spec.map_over ≡ none
      → r.spec.samples ≡ none
      → execute_node input s r
        ≡ apply_outcome (record r { attempts = 1 }) (call_executor r.spec (s.replies 0))
  unfolding execute_node
  execute_single input s r a b c =
      ground (arith, runs_always r.spec s.inputs a, attempt_single input s r r.spec.map_over b c)

  -- A node with no condition, fan-out or samples, that no journal recalls: a deferral that its
  -- executor returns itself is retried like an own timeout, if its reason begins with "timeout:" and
  -- a retry is left.
  pub returned_timeout_retried :
      (input : Settings) (s : Surroundings A) (r : NodeRecord A) (output : Option A) (text : String)
      → r.spec.run_if ≡ none
      → r.spec.map_over ≡ none
      → r.spec.samples ≡ none
      → s.replies 0 ≡ record { timer_won = false; answer = returned deferred output (some text) }
      → starts_with text "timeout:" ≡ true
      → r.retries_used < resolve_retry_bound input r.spec
      → (run_node input s none r).status ≡ pending
  unfolding run_node retry_or_settle
  returned_timeout_retried input s r output text a b c e f g =
      let x = execute_single input s r a b c in
      let k = execute_node-Settles input s r in
      let own : is_own_timeout_deferral (execute_node input s r) ≡ true =
        rw (x, e) (is_own_timeout_of_returned (record r { attempts = 1 }) r.spec output text ∙ f) in
      ground (arith, own, ap (resolve_retry_bound input) k.0, k.1)
