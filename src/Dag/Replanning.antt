-- ===== src/Dag/Replanning.antt =====
-- `execute` with a replanner: the turn that offers a failed node to it, and what its answer does to the
-- records. The replanner is a third party's; while the loop waits for it, the nodes in flight go on.
-- `replanOffered` is kept as the list of the ids that were offered.
pub mod Splicing
pub mod Awaiting
pub mod Steps
pub mod Safety
pub mod Progress
mod Examples
use agent_sdk.Common.{
  ℕ, ◌-◌, Bool, true, false, not, ◌&&◌, ◌||◌, String, List, [], ◌∷◌, Option, none, some, length,
  ltb, elem, str_eq, if◌then◌else◌, zero, suc,
}
use agent_sdk.Dag.{
  failed, Status, settled, cancelled, Reason, said, replan_error, replan_rejected, DagNodeSpec,
  NodeRecord,
}
use agent_sdk.Dag.Records.{specs}
use agent_sdk.Dag.Replan.{validate_replan, splice_replan}
use agent_sdk.Dag.Loop.{World, any_pending, defer_pending, block_all, advance}

-- `r.status === "failed"`
abbrev pub is_failed : Status → Bool
is_failed (settled failed) = true
is_failed _ = false

-- `budget` is `replanBudget`, which is 0 without a replanner; `awaiting` is the id of the node that the
-- replanner was asked about, while the loop waits for its answer.
pub record ReplanWorld (A : Type 0) : Type 0 where
  pub base : World A
  pub budget : ℕ
  pub offered : List String
  pub awaiting : Option String

-- What the replanner does: it throws, declines with null, or returns nodes.
pub data ReplanAnswer (A : Type 0) : Type 0 where
  threw_error : String → ReplanAnswer A
  declined : ReplanAnswer A
  proposed : List (DagNodeSpec A) → ReplanAnswer A

-- `replanOffered = false` for the id
abbrev pub withdraw : String → List String → List String
withdraw id [] = []
withdraw id (x ∷ xs) = let rest = withdraw id xs in if str_eq x id then rest else x ∷ rest

abbrev is_some : Option String → Bool
is_some none = false
is_some (some id) = true

-- `reason ?? "failed"`
abbrev or_failed : Option Reason → Reason
or_failed none = said "failed"
or_failed (some r) = r

module _ {A : Type 0} where
  -- `records.find((r) => r.status === "failed" && !r.replanOffered)`, as the record's id
  pub failed_to_replan : List String → List (NodeRecord A) → Option String
  failed_to_replan offered [] = none
  failed_to_replan offered (r ∷ rs) =
      let rest = failed_to_replan offered rs in
      if is_failed r.status && not (elem r.spec.id offered) then some r.spec.id else rest

  pub has_replan_work : ReplanWorld A → Bool
  unfolding failed_to_replan
  has_replan_work w =
      ltb 0 w.budget && (not w.base.aborted && is_some (failed_to_replan w.offered w.base.records))

  -- The node is offered at most once.
  abbrev pub offer : String → ReplanWorld A → ReplanWorld A
  offer id w = record w { offered = id ∷ w.offered; awaiting = some id }

  pub go_on : Option ℕ → ReplanWorld A → ReplanWorld A
  go_on limit w =
      let rs = block_all (suc (length w.base.records)) w.base.records in
      record w { base = advance limit (record w.base { records = rs }) }

  pub offer_or_go_on : Option ℕ → ReplanWorld A → ReplanWorld A
  unfolding failed_to_replan go_on
  offer_or_go_on limit w =
      if ltb 0 w.budget
      then elim (failed_to_replan w.offered w.base.records) [
        | some id ↦ offer id w
        | none ↦ go_on limit w
      ]
      else go_on limit w

  unfoldable pub replan_turn : Option ℕ → ReplanWorld A → ReplanWorld A
  unfolding has_replan_work offer_or_go_on
  replan_turn limit w =
      if any_pending w.base.records || has_replan_work w
      then (if w.base.aborted
          then record w {
            base = record w.base {
              records = defer_pending cancelled w.base.records;
              stopped = true;
            };
          }
          else offer_or_go_on limit w)
      else record w { base = record w.base { stopped = true } }

  -- The failed node's `reason` says why it was not replanned.
  pub explain : String → (Reason → Reason) → List (NodeRecord A) → List (NodeRecord A)
  explain id why [] = []
  explain id why (r ∷ rs) =
      (if str_eq r.spec.id id then record r { reason = some (why (or_failed r.reason)) } else r)
      ∷ explain id why rs

  unfoldable pub judge_replan : String → List (DagNodeSpec A) → ReplanWorld A → ReplanWorld A
  unfolding explain
  judge_replan id returned w = elim (validate_replan id returned (specs w.base.records)) [
    | some e ↦ record w {
      base = record w.base { records = explain id (λ r. replan_rejected r e) w.base.records };
      awaiting = none;
    }
    | none ↦ record w {
      base = record w.base { records = splice_replan id returned w.base.records };
      budget = w.budget - 1;
      offered = withdraw id w.offered;
      awaiting = none;
    }
  ]

  unfoldable pub settle_replan : String → ReplanAnswer A → ReplanWorld A → ReplanWorld A
  unfolding explain judge_replan
  settle_replan id (threw_error text) w = record w {
    base = record w.base { records = explain id (λ r. replan_error r text) w.base.records };
    awaiting = none;
  }
  settle_replan id declined w = record w { awaiting = none }
  settle_replan id (proposed returned) w = judge_replan id returned w
