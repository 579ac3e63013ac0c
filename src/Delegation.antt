-- ===== src/Delegation.antt =====
-- src/delegation/delegate.ts: a child's tools are attenuated from its parent's, and each of its calls is
-- gated. Both decisions go through the verifier battery.
pub mod Tools
pub mod Keep
pub mod Within
pub mod Gate
mod Examples
use agent_sdk.Common.{
  ℕ, Bool, true, false, not, ◌&&◌, String, List, [], ◌∷◌, Option, none, some, elem, length, ◌==◌,
  if◌then◌else◌, ◌⊎◌, inl, inr,
}
use agent_sdk.Trace.Canonical.{Payload, text, number, with_value, no_values, texts}
use agent_sdk.Delegation.Tools.{keep, base_tool_name}
use agent_sdk.Compute.Battery.{
  BatteryError, BatteryOptions, BatteryLens, run_verifier_battery, allowed_by,
}
use agent_sdk.Compute.Battery.Single.{hard_rule}

abbrev pub delegation_adr : String
delegation_adr = "ADR-ECO-076"

abbrev pub default_child_max_steps : ℕ
default_child_max_steps = 30

abbrev pub default_vote_threshold : ℕ
default_vote_threshold = 500

abbrev pub non_delegable_tools : List String
non_delegable_tools = "spawn_agent" ∷ ("spawn_parallel_agents" ∷ ("spawn_dag" ∷ ("delegate" ∷ [])))

abbrev pub orientation_tools : List String
orientation_tools =
    "get_daily_digest"
    ∷ ("get_session_brief"
        ∷ ("get_focus_today"
            ∷ ("get_drift_signals" ∷ ("get_active_sprints" ∷ ("get_project_sprints" ∷ [])))))

-- `tools` is empty where the grant has none.
pub record DelegationGrant : Type 0 where
  pub tools : List String
  pub max_steps : Option ℕ

pub record DelegateInput : Type 0 where
  pub parent_tools : List String
  pub grant : Option DelegationGrant
  pub task : String
  pub run_id : String
  pub adr_eco : Option String
  pub dangerous_tools : List String

pub record GrantCandidate : Type 0 where
  pub requested : List String
  pub attenuated_tools : List String
  pub escalation : List String

-- A proposed call of a tool.
pub record ActionGateCall : Type 0 where
  pub tool_name : String
  pub args : Payload
  pub budget_used : Payload

-- `actionGate` is `gate` below, over the tools of the plan.
pub record DelegationPlan : Type 0 where
  pub allowed : Bool
  pub attenuated_tools : List String
  pub max_steps : ℕ

abbrev pub granted_tools : Option DelegationGrant → List String
granted_tools none = []
granted_tools (some g) = g.tools

abbrev pub granted_steps : Option DelegationGrant → Option ℕ
granted_steps none = none
granted_steps (some g) = g.max_steps

abbrev pub or_else {ℓ} : {A : Type ℓ} → Option A → A → A
or_else none a = a
or_else (some b) a = b

pub is_delegable : String → Bool
is_delegable name = not (elem (base_tool_name name) non_delegable_tools)

pub is_orientation : String → Bool
is_orientation name = elem (base_tool_name name) orientation_tools

pub requested_tools : List String → List String → List String → List String
unfolding is_delegable is_orientation
requested_tools parent dangerous [] =
    keep (λ n. is_delegable n && (not (is_orientation n) && not (elem n dangerous))) parent
requested_tools parent dangerous (t ∷ ts) = keep is_delegable (t ∷ ts)

pub attenuate : List String → Option DelegationGrant → List String → GrantCandidate
unfolding requested_tools
attenuate parent grant dangerous =
    let requested = requested_tools parent dangerous (granted_tools grant) in
    record {
      requested = requested;
      attenuated_tools = keep (λ n. elem n parent) requested;
      escalation = keep (λ n. not (elem n parent)) requested;
    }

abbrev pub attenuation_lens : BatteryLens GrantCandidate
attenuation_lens = hard_rule (λ c. if length c.escalation == 0 then 1000 else 0)

abbrev pub options : DelegateInput → BatteryOptions
options input = record {
  adr_eco = or_else input.adr_eco delegation_adr;
  run_id = input.run_id;
  vote_threshold = default_vote_threshold;
}

abbrev pub plan_of : DelegateInput → GrantCandidate → Bool → DelegationPlan
plan_of input c allowed = record {
  allowed = allowed;
  attenuated_tools = if allowed then c.attenuated_tools else [];
  max_steps = or_else (granted_steps input.grant) default_child_max_steps;
}

abbrev pub plan_by :
    DelegateInput → GrantCandidate → BatteryError ⊎ Bool → BatteryError ⊎ DelegationPlan
plan_by input c (inl e) = inl e
plan_by input c (inr allowed) = inr (plan_of input c allowed)

-- What canonicalize sees of a candidate, of the battery's input and of a call.
pub grant_payload : GrantCandidate → Payload
unfolding texts
grant_payload c =
    with_value (texts c.requested)
      (with_value (texts c.attenuated_tools) (with_value (texts c.escalation) no_values))

abbrev pub input_payload : DelegateInput → Payload
input_payload input =
    with_value (text input.task) (with_value (number (length input.parent_tools)) no_values)

abbrev pub call_payload : ActionGateCall → Payload
call_payload call =
    with_value (text call.tool_name) (with_value call.args (with_value call.budget_used no_values))

unfoldable pub delegate : DelegateInput → BatteryError ⊎ DelegationPlan
unfolding attenuate grant_payload
delegate input =
    let c = attenuate input.parent_tools input.grant input.dangerous_tools in
    plan_by input c (
      allowed_by (
        run_verifier_battery grant_payload (input_payload input) (options input) (c ∷ [])
          (attenuation_lens ∷ [])))

abbrev pub call_allowlist_lens : List String → BatteryLens ActionGateCall
call_allowlist_lens allowed = hard_rule (λ call. if elem call.tool_name allowed then 1000 else 0)

-- `actionGate.verify` of a call of the child's.
unfoldable pub gate : DelegateInput → DelegationPlan → ActionGateCall → BatteryError ⊎ Bool
gate input plan call = allowed_by (
    run_verifier_battery call_payload (call_payload call) (options input) (call ∷ [])
      (call_allowlist_lens plan.attenuated_tools ∷ []))
