-- ===== src/Patterns/Escalation.antt =====
-- src/patterns/escalation/pyramid.ts: the level at which an action may go on. Confidences are natural
-- numbers of one unit; the log entries and the callback are left out, which change no level.
pub mod Levels
use mathlib.Core.Option.{get_or}
use agent_sdk.Common.Assoc.{Assoc, set, delete, get}
use agent_sdk.Common.{
  ℕ, Bool, List, String, Option, if◌then◌else◌, false, leb, ltb, true, ◌∷◌, none, [], some,
}

pub data EscalationLevel : Type 0 where
  autonomous async_review hitl_required : EscalationLevel

pub record Pyramid : Type 0 where
  pub l1 : ℕ
  pub l2 : ℕ
  pub declared : Assoc EscalationLevel
  pub overrides : Assoc EscalationLevel

pub record EscalationDecision : Type 0 where
  pub proceed : Bool
  pub effective_level : EscalationLevel

-- `new Map(declarations)`: a later declaration of an action replaces an earlier one.
pub declare_all : List (String × EscalationLevel) → Assoc EscalationLevel → Assoc EscalationLevel
declare_all [] m = m
declare_all ((action, level) ∷ rest) m = declare_all rest (set action level m)

-- `createEscalationPyramid`, which refuses thresholds in the wrong order.
pub create : ℕ → ℕ → List (String × EscalationLevel) → Option Pyramid
unfolding declare_all
create l1 l2 declarations =
    if leb l1 l2
    then none
    else some (record { l1 = l1; l2 = l2; declared = declare_all declarations []; overrides = [] })

-- An action that is not declared is at L3.
unfoldable pub get_nominal : Pyramid → String → EscalationLevel
get_nominal p action =
    get_or (get action p.overrides) (get_or (get action p.declared) hitl_required)

pub escalate : Pyramid → EscalationLevel → ℕ → Bool → EscalationLevel
escalate p nominal confidence is_dry_run = if is_dry_run then autonomous else elim nominal [
  | autonomous ↦ if ltb confidence p.l1 then async_review else autonomous
  | async_review ↦ if ltb confidence p.l2 then hitl_required else async_review
  | hitl_required ↦ hitl_required
]

abbrev pub proceeds : EscalationLevel → Bool
proceeds hitl_required = false
proceeds _ = true

pub can_proceed : Pyramid → String → ℕ → Bool → EscalationDecision
unfolding escalate get_nominal
can_proceed p action confidence is_dry_run =
    let level = escalate p (get_nominal p action) confidence is_dry_run in
    record { proceed = proceeds level; effective_level = level }

pub override : String → EscalationLevel → Pyramid → Pyramid
override action level p = record p { overrides = set action level p.overrides }

pub clear_override : String → Pyramid → Pyramid
clear_override action p = record p { overrides = delete action p.overrides }
