-- ===== src/Delegation/Examples.antt =====
-- An orchestrator with three tools, its child, and a call of the child's.
use agent_sdk.Delegation.Tools.{base_tool_name}
use agent_sdk.Compute.Battery.{run_verifier_battery}
use agent_sdk.Common.Text.{is_blank}
use agent_sdk.Delegation.Gate.{gate-elem}
use agent_sdk.Trace.Canonical.{nan, number, text, is_serializable}
use agent_sdk.Compute.Battery.{cannot_hash, not_serializable}
use agent_sdk.Common.Text.{is_blank}
use agent_sdk.Delegation.Within.{Attenuates, delegate-Delegated}
use agent_sdk.Delegation.{
  ActionGateCall, DelegateInput, DelegationPlan, delegate, gate, base_tool_name,
  run_verifier_battery,
}
use agent_sdk.Common.{some, inl, [], ◌∷◌, refl, none, true, false, inr, List, ◌≡◌, String}

abbrev root : List String
root = "read" ∷ ("mcp__team__spawn_dag" ∷ ("write" ∷ []))

abbrev input : DelegateInput
input = record {
  parent_tools = root;
  grant = none;
  task = "look";
  run_id = "run";
  adr_eco = none;
  dangerous_tools = "write" ∷ [];
}

abbrev plan : DelegationPlan
plan = record { allowed = true; attenuated_tools = "read" ∷ []; max_steps = 30 }

delegate-input : delegate input ≡ inr plan
unfolding delegate base_tool_name run_verifier_battery is_blank is_serializable cannot_hash
delegate-input = refl

delegate-Delegated_example : Attenuates input plan
delegate-Delegated_example = delegate-Delegated input plan delegate-input

-- A grant of a tool that the parent does not have.
abbrev too_much : DelegateInput
too_much = record input {
  grant = some (record { tools = "read" ∷ ("delete" ∷ []); max_steps = none });
}

too_much_denied :
    delegate too_much ≡ inr (record { allowed = false; attenuated_tools = []; max_steps = 30 })
unfolding delegate base_tool_name run_verifier_battery is_blank is_serializable cannot_hash
too_much_denied = refl

abbrev write : ActionGateCall
write = record { tool_name = "write"; args = text "x"; budget_used = number 0 }

gate-elem_example : gate input plan write ≡ inr false
unfolding is_serializable
gate-elem_example = gate-elem input plan write delegate-input

-- A call of a tool in the plan, with NaN among its arguments.
read_nan : gate input plan (record write { tool_name = "read"; args = nan }) ≡ inl not_serializable
unfolding gate run_verifier_battery is_blank is_serializable cannot_hash
read_nan = refl
