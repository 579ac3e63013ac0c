-- ===== src/Patterns/Escalation/Levels.antt =====
-- How the level of an action depends on its declaration, its override and the confidence.
use agent_sdk.Common.{◌≤◌, ◌≡◌, false, none, ◌+◌, arith, ◌≢◌, eq_refl, str_eq-cases}
use agent_sdk.Common.Assoc.{get, set, get-set, get-delete}
use agent_sdk.Patterns.Escalation.{
  Pyramid, EscalationLevel, autonomous, async_review, hitl_required, get_nominal, escalate,
  can_proceed, override, clear_override, ℕ, String, Bool, get_or,
}

abbrev pub height : EscalationLevel → ℕ
height autonomous = 1
height async_review = 2
height hitl_required = 3

-- Outside a dry run the level of an action is never below its nominal level, and at most one above
-- it; and a greater confidence never raises it.
pub can_proceed_level :
    (p : Pyramid) (action : String) (confidence more : ℕ)
    → confidence ≤ more
    → let level = λ (c : ℕ). height (can_proceed p action c false).effective_level in
      (height (get_nominal p action) ≤ level confidence)
      × (level confidence ≤ height (get_nominal p action) + 1)
      × (level more ≤ level confidence)
unfolding can_proceed escalate
can_proceed_level p action confidence more h = ground arith

-- An action that is neither declared nor overridden goes on in a dry run only, at any confidence.
pub unknown_action_refused :
    (p : Pyramid) (action : String) (confidence : ℕ) (is_dry_run : Bool)
    → get action p.declared ≡ none
    → get action p.overrides ≡ none
    → (can_proceed p action confidence is_dry_run).proceed ≡ is_dry_run
unfolding can_proceed escalate get_nominal
unknown_action_refused p action confidence is_dry_run d o = ground arith

-- An override sets the nominal level of its action and of no other, and clearing it brings the
-- declared level back, or L3.
pub override_nominal :
    (p : Pyramid) (action other : String) (level : EscalationLevel)
    → (get_nominal (override action level p) action ≡ level)
      × (get_nominal (clear_override action (override action level p)) action
          ≡ get_or (get action p.declared) hitl_required)
      × (other ≢ action → get_nominal (override action level p) other ≡ get_nominal p other)
unfolding get_nominal override clear_override
override_nominal p action other level = (
  ground (arith, get-set action action level p.overrides, eq_refl action),
  ground (arith, get-delete action action (set action level p.overrides), eq_refl action),
  λ ne. ground (arith, get-set action other level p.overrides, str_eq-cases action other),
)
