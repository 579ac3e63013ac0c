-- ===== src/Delegation/Within.antt =====
-- A child never has more than its parent, at any depth.
use agent_sdk.Compute.Battery.Single.{hard_rule-allowed}
use agent_sdk.Delegation.{
  requested_tools, DelegateInput, attenuate, delegate, GrantCandidate, DelegationPlan, keep,
  is_delegable, BatteryError, is_orientation, allowed_by, run_verifier_battery, options,
  attenuation_lens, plan_of, granted_tools, plan_by, default_vote_threshold, grant_payload,
  base_tool_name, input_payload, orientation_tools, non_delegable_tools,
}
use agent_sdk.Delegation.Tools.{base_tool_name}
use agent_sdk.Delegation.Keep.{
  keep-All, All-keep, keep_all_of, elem-keep, none_left, All-keep_iff, All-elem_self, All-both,
}
use agent_sdk.Common.{
  ◌↔◌, inl, inr, [], ◌∷◌, true, inl, inr, refl, String, List, Bool, All, elem, ◌≡◌, length,
  Bool-cases, not, ◌&&◌, ◌⊎◌, ap, arith, ◌==◌, ℕ, if◌then◌else◌, leb, ◌∙◌, subst, sym,
}

requested_tools-All :
    (parent dangerous tools : List String)
    → All (λ (n : String). is_delegable n ≡ true) (requested_tools parent dangerous tools)
unfolding requested_tools
requested_tools-All parent dangerous [] =
    keep-All (λ n. is_delegable n && (not (is_orientation n) && not (elem n dangerous)))
      (λ n. is_delegable n ≡ true) parent (λ n h. ground arith)
requested_tools-All parent dangerous (t ∷ ts) =
    keep-All is_delegable (λ n. is_delegable n ≡ true) (t ∷ ts) (λ n h. h)

abbrev pub candidate : DelegateInput → GrantCandidate
candidate input = attenuate input.parent_tools input.grant input.dangerous_tools

-- A tool of the parent's that spawns no agents.
abbrev pub Delegated : List String → String → Type 0
Delegated parent tool = (elem tool parent ≡ true) × (is_delegable tool ≡ true)

attenuated-All :
    (input : DelegateInput) → All (Delegated input.parent_tools) (candidate input).attenuated_tools
unfolding attenuate
attenuated-All input =
    let parent = input.parent_tools in
    let requested = requested_tools parent input.dangerous_tools (granted_tools input.grant) in
    let test : String → Bool = λ n. elem n parent in
    All-both (λ n. elem n parent ≡ true) (λ n. is_delegable n ≡ true) (keep test requested)
      (keep-All test (λ n. elem n parent ≡ true) requested (λ n h. h))
      (All-keep test (λ n. is_delegable n ≡ true) requested
        (requested_tools-All parent input.dangerous_tools (granted_tools input.grant)))

abbrev pub battery_run : DelegateInput → BatteryError ⊎ Bool
battery_run input = allowed_by (
    run_verifier_battery grant_payload (input_payload input) (options input) (candidate input ∷ [])
      (attenuation_lens ∷ []))

pub plan_by-plan :
    (input : DelegateInput) (plan : DelegationPlan) (o : BatteryError ⊎ Bool)
    → plan_by input (candidate input) o ≡ inr plan
    → (b : Bool) × (o ≡ inr b) × (plan ≡ plan_of input (candidate input) b)
plan_by-plan input plan (inl e) h = absurd cc
plan_by-plan input plan (inr b) h = (b, refl, cc)

score_of : (n : ℕ) → leb default_vote_threshold (if n == 0 then 1000 else 0) ≡ (n == 0)
score_of n = ground arith

delegate_plan :
    (input : DelegateInput) (plan : DelegationPlan)
    → delegate input ≡ inr plan
    → plan ≡ plan_of input (candidate input) (length (candidate input).escalation == 0)
unfolding delegate
delegate_plan input plan h =
    let c = candidate input in
    let (b, ran, is) = plan_by-plan input plan (battery_run input) h in
    let decided =
      hard_rule-allowed grant_payload (input_payload input) (options input) c
        (λ (x : GrantCandidate). if length x.escalation == 0 then 1000 else 0) b (ground arith) ran
      ∙ score_of (length c.escalation) in
    is ∙ ap (plan_of input c) decided

escalation_empty :
    (input : DelegateInput)
    → length (candidate input).escalation ≡ 0
    → (candidate input).attenuated_tools ≡ (candidate input).requested
unfolding attenuate
escalation_empty input h =
    keep_all_of (λ n. elem n input.parent_tools)
      (requested_tools input.parent_tools input.dangerous_tools (granted_tools input.grant)) h

-- The tools that spawn agents.
abbrev pub spawns : String → Bool
spawns t = elem (base_tool_name t) non_delegable_tools

-- A tool that an explicit grant names, or, without one, that neither orients a session nor is dangerous.
abbrev pub is_wanted : List String → List String → String → Bool
is_wanted dangerous [] t = not (elem (base_tool_name t) orientation_tools) && not (elem t dangerous)
is_wanted dangerous (g ∷ gs) t = elem t (g ∷ gs)

elem-requested :
    (parent dangerous tools : List String) (t : String)
    → (elem t (requested_tools parent dangerous tools) && elem t parent)
      ≡ (elem t parent && (not (spawns t) && is_wanted dangerous tools t))
unfolding requested_tools is_delegable is_orientation
elem-requested parent dangerous [] t = ground (
  arith,
  elem-keep (λ n. is_delegable n && (not (is_orientation n) && not (elem n dangerous))) parent t,
)
elem-requested parent dangerous (g ∷ gs) t = ground (arith, elem-keep is_delegable (g ∷ gs) t)

-- Every tool that a grant names and that spawns no agents is the parent's.
abbrev pub Holds : List String → List String → Type 0
Holds parent tools = All (λ (t : String). not (spawns t) ≡ true → elem t parent ≡ true) tools

escalation-Holds :
    (parent dangerous tools : List String)
    → ((length (keep (λ n. not (elem n parent)) (requested_tools parent dangerous tools)) == 0)
        ≡ true)
      ↔ Holds parent tools
unfolding requested_tools is_delegable
escalation-Holds parent dangerous [] =
    let test : String → Bool = λ n. elem n parent in
    let requested = requested_tools parent dangerous [] in
    (
      λ h. tt,
      λ h. (none_left test requested).1 (
          All-keep (λ n. is_delegable n && (not (is_orientation n) && not (elem n dangerous)))
            (λ (x : String). elem x parent ≡ true) parent (All-elem_self parent)),
    )
escalation-Holds parent dangerous (g ∷ gs) =
    let test : String → Bool = λ n. elem n parent in
    let (f, f') = none_left test (keep is_delegable (g ∷ gs)) in
    let (k, k') = All-keep_iff is_delegable (λ (x : String). test x ≡ true) (g ∷ gs) in
    (λ h. k (f h), λ h. f' (k' h))

-- What a plan promises, in terms of the parent's tools and of the grant.
pub record Attenuates (input : DelegateInput) (plan : DelegationPlan) : Type 0 where
  pub allowed_iff : (plan.allowed ≡ true) ↔ Holds input.parent_tools (granted_tools input.grant)
  pub exactly :
      (t : String)
      → elem t plan.attenuated_tools ≡ (
          plan.allowed
          && (elem t input.parent_tools
              && (not (spawns t) && is_wanted input.dangerous_tools (granted_tools input.grant) t)))
  pub in_order : plan.attenuated_tools ≡ (if plan.allowed then (candidate input).requested else [])
  pub delegated : All (Delegated input.parent_tools) plan.attenuated_tools

elem-attenuated :
    (input : DelegateInput) (t : String)
    → elem t (candidate input).attenuated_tools ≡ (
        elem t input.parent_tools
        && (not (spawns t) && is_wanted input.dangerous_tools (granted_tools input.grant) t))
unfolding attenuate
elem-attenuated input t =
    let requested =
      requested_tools input.parent_tools input.dangerous_tools (granted_tools input.grant) in
    elem-keep (λ n. elem n input.parent_tools) requested t
    ∙ elem-requested input.parent_tools input.dangerous_tools (granted_tools input.grant) t

candidate-Holds :
    (input : DelegateInput)
    → ((length (candidate input).escalation == 0) ≡ true)
      ↔ Holds input.parent_tools (granted_tools input.grant)
unfolding attenuate
candidate-Holds input =
    escalation-Holds input.parent_tools input.dangerous_tools (granted_tools input.grant)

plan_of-Attenuates :
    (input : DelegateInput)
    → Attenuates input (plan_of input (candidate input) (length (candidate input).escalation == 0))
plan_of-Attenuates input =
    let c = candidate input in
    let (f, g) = candidate-Holds input in
    let P : Bool → Type 0 = λ b. Attenuates input (plan_of input c b) in
    elim (Bool-cases (length c.escalation == 0)) [
      | inl e ↦ subst P (sym e) (record {
        allowed_iff = (λ h. f e, λ h. refl);
        exactly = λ t. elem-attenuated input t;
        in_order = escalation_empty input (ground arith);
        delegated = attenuated-All input;
      })
      | inr e ↦ subst P (sym e) (record {
        allowed_iff = (λ h. absurd cc, λ h. absurd (let k = g h in cc));
        exactly = λ t. refl;
        in_order = refl;
        delegated = tt;
      })
    ]

-- A delegation that raises no error is allowed exactly if the parent has every tool that an explicit
-- grant names, those that spawn agents left out; without an explicit grant it is always allowed. The
-- child then has exactly the parent's tools that spawn no agents and that the grant names, or, without
-- one, that neither orient a session nor are dangerous, in the order in which they are requested; a
-- child that is not allowed has none.
pub delegate-Delegated :
    (input : DelegateInput) (plan : DelegationPlan)
    → delegate input ≡ inr plan
    → Attenuates input plan
delegate-Delegated input plan h =
    subst (Attenuates input) (sym (delegate_plan input plan h)) (plan_of-Attenuates input)
