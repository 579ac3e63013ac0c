-- ===== src/Delegation/Gate.antt =====
-- The gate of a child's calls.
use agent_sdk.Compute.Battery.Single.{hard_rule_again}
use agent_sdk.Delegation.{
  gate, delegate, DelegateInput, default_vote_threshold, DelegationPlan, options, GrantCandidate,
}
use agent_sdk.Trace.Canonical.{is_serializable}
use agent_sdk.Compute.Battery.{cannot_hash, not_serializable, BatteryError}
use agent_sdk.Delegation.{ActionGateCall, grant_payload, input_payload, call_payload}
use agent_sdk.Common.{
  ◌&&◌, not, ◌⊎◌, [], ◌∷◌, true, false, inl, inr, refl, ap, ◌∙◌, Bool, leb, elem, ◌≡◌,
  if◌then◌else◌, ℕ, arith, length, ◌==◌,
}
use agent_sdk.Delegation.Within.{plan_by-plan, battery_run, candidate}

hash_both :
    (a u : Bool) (r : BatteryError ⊎ Bool)
    → (if not (((a && (u && true)) && true) && (a && (u && true))) then inl not_serializable else r)
      ≡ (if a && u then r else inl not_serializable)
hash_both true true r = refl
hash_both true false r = refl
hash_both false u r = refl

-- The call is hashed as the candidate, and as the input.
call_hash :
    (call : ActionGateCall) (r : BatteryError ⊎ Bool)
    → (if cannot_hash call_payload (call_payload call) (call ∷ []) then inl not_serializable else r)
      ≡ (if is_serializable call.args && is_serializable call.budget_used
          then r
          else inl not_serializable)
unfolding cannot_hash is_serializable
call_hash call r = hash_both (is_serializable call.args) (is_serializable call.budget_used) r

allow_score : (b : Bool) → leb default_vote_threshold (if b then 1000 else 0) ≡ b
allow_score true = refl
allow_score false = refl

-- For the options of a delegation that raised no error: the gate of its plan throws exactly if
-- canonicalize does not take the call's arguments or its budget, and otherwise lets the call go on
-- exactly if its tool is one of the plan's.
pub gate-elem :
    (input : DelegateInput) (plan : DelegationPlan) (call : ActionGateCall)
    → delegate input ≡ inr plan
    → gate input plan call ≡ (
        if is_serializable call.args && is_serializable call.budget_used
        then inr (elem call.tool_name plan.attenuated_tools)
        else inl not_serializable)
unfolding gate delegate
gate-elem input plan call h =
    let (b, ran, is) = plan_by-plan input plan (battery_run input) h in
    let score : ActionGateCall → ℕ =
      λ c. if elem c.tool_name plan.attenuated_tools then 1000 else 0 in
    let allowed = elem call.tool_name plan.attenuated_tools in
    hard_rule_again grant_payload (input_payload input) call_payload (call_payload call)
      (options input) (candidate input)
      (λ (x : GrantCandidate). if length x.escalation == 0 then 1000 else 0) b call score ran
      (ground arith)
    ∙ call_hash call (inr (leb default_vote_threshold (if allowed then 1000 else 0)))
    ∙ ap
        (λ (x : Bool).
          if is_serializable call.args && is_serializable call.budget_used
          then inr x
          else inl not_serializable)
        (allow_score allowed)
