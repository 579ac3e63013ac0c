-- ===== src/Dag/Replanning/Progress.antt =====
-- The budget for replans, and that no turn of the loop is idle.
use agent_sdk.Dag.Loop.Moves.{advance_moves}
use agent_sdk.Dag.Replanning.Safety.{replan_start}
use agent_sdk.Dag.Loop.{any_pending}
use agent_sdk.Dag.Replanning.Steps.{ReplanStep, ReplanReach, answers, next}
use agent_sdk.Common.{◌≢◌, ℕ, none, ◌<◌, ◌+◌, some, ◌≡◌, List, String, true, ◌||◌, ltb, ltb→lt}
use agent_sdk.Dag.Replanning.{
  ReplanWorld, proposed, validate_replan, specs, go_on, replan_turn, judge_replan, settle_replan,
  offer_or_go_on, has_replan_work, failed_to_replan,
}
use agent_sdk.Dag.{Settings, Option, NodeRecord, DagNodeSpec}
use agent_sdk.Dag.Replanning.Steps.{ReplanReach, here, next, turns, meanwhile, answers}
use agent_sdk.Dag.Replanning.{declined, threw_error, proposed}
use agent_sdk.Common.{refl, inl, inr, if_cases, Option-cases, arith, ◌⊎◌, ◌<◌}

module _ {A : Type 0} where
  -- 1 for an answer that is spliced in.
  abbrev splices :
      (input : Settings) (limit : Option ℕ) {w u : ReplanWorld A} → ReplanStep input limit w u → ℕ
  splices input limit {w} (answers id (proposed returned) asked) =
      elim (validate_replan id returned (specs w.base.records)) [ none ↦ 1 | some e ↦ 0 ]
  splices input limit _ = 0

  -- How many replans a run has spliced in.
  abbrev pub replans :
      (input : Settings) (limit : Option ℕ) {w u : ReplanWorld A} → ReplanReach input limit w u → ℕ
  replans input limit here = 0
  replans input limit (next r st) = replans input limit r + splices input limit st

  -- The replanner is asked only while there is budget.
  abbrev Funded : ReplanWorld A → Type 0
  Funded w = w.awaiting ≢ none → 0 < w.budget

  go_on-awaiting :
      (limit : Option ℕ) (w : ReplanWorld A)
      → ((go_on limit w).awaiting ≡ w.awaiting) × ((go_on limit w).budget ≡ w.budget)
  unfolding go_on
  go_on-awaiting limit w = (refl, refl)

  turn-Funded :
      (limit : Option ℕ) (w : ReplanWorld A)
      → w.awaiting ≡ none
      → Funded (replan_turn limit w) × ((replan_turn limit w).budget ≡ w.budget)
  unfolding replan_turn offer_or_go_on go_on
  turn-Funded limit w idle =
      let P : ReplanWorld A → Type 0 = λ u. Funded u × (u.budget ≡ w.budget) in
      let unmoved : w.awaiting ≢ none → 0 < w.budget = λ f. absurd (f idle) in
      if_cases P (any_pending w.base.records || has_replan_work w) _ _
        (λ _.
          if_cases P w.base.aborted _ _ (λ _. (unmoved, refl))
            (λ _.
              if_cases P (ltb 0 w.budget) _ _
                (λ some_left. elim (Option-cases (failed_to_replan w.offered w.base.records)) [
                  | inl e ↦ rw e (unmoved, refl)
                  | inr (id, e) ↦ rw e (λ f. ltb→lt 0 w.budget some_left, refl)
                ])
                (λ _. (unmoved, refl))))
        (λ _. (unmoved, refl))

  judge-budget :
      (w : ReplanWorld A) (id : String) (returned : List (DagNodeSpec A))
      → 0 < w.budget
      → let u = judge_replan id returned w in
        (u.awaiting ≡ none)
        × (elim (validate_replan id returned (specs w.base.records)) [ none ↦ 1 | some e ↦ 0 ]
              + u.budget
            ≡ w.budget)
  unfolding judge_replan
  judge-budget w id returned h =
      elim (Option-cases (validate_replan id returned (specs w.base.records))) [
        | inl e ↦ rw (e, judge_replan) (refl, omega arith)
        | inr (x, e) ↦ rw (e, judge_replan) (refl, omega arith)
      ]

  Step-Funded :
      (input : Settings) (limit : Option ℕ) {w u : ReplanWorld A} (st : ReplanStep input limit w u)
      → Funded w
      → Funded u × (splices input limit st + u.budget ≡ w.budget)
  unfolding settle_replan
  Step-Funded input limit {w} (turns go idle) f =
      let (g, e) = turn-Funded limit w idle in (g, omega (arith, e))
  Step-Funded input limit (meanwhile b) f = (f, omega arith)
  Step-Funded input limit (answers id (threw_error text) asked) f =
      (λ g. absurd (g refl), omega arith)
  Step-Funded input limit (answers id declined asked) f = (λ g. absurd (g refl), omega arith)
  Step-Funded input limit {w} (answers id (proposed returned) asked) f =
      let (cleared, e) = judge-budget w id returned (f (λ n. absurd cc)) in
      (λ g. absurd (g cleared), e)

  Reach-Funded :
      (input : Settings) (limit : Option ℕ) {w u : ReplanWorld A} (r : ReplanReach input limit w u)
      → Funded w
      → Funded u × (replans input limit r + u.budget ≡ w.budget)
  Reach-Funded input limit here f = (f, omega arith)
  Reach-Funded input limit (next r st) f =
      let (g, e) = Reach-Funded input limit r f in
      let (g', e') = Step-Funded input limit st g in (g', omega (arith, e, e'))

  -- However the run goes, the replans that are spliced in and the budget that is left add up to
  -- `maxReplans`: at most that many are accepted.
  pub replans-budget :
      (input : Settings) (limit : Option ℕ) (max_replans : ℕ) (rs : List (NodeRecord A))
      {w : ReplanWorld A} (r : ReplanReach input limit (replan_start max_replans rs) w)
      → replans input limit r + w.budget ≡ max_replans
  replans-budget input limit max_replans rs r =
      (Reach-Funded input limit r (λ f. absurd (f refl))).1

  -- The loop has ended, a node is in flight, or the replanner is asked.
  abbrev pub Moves : ReplanWorld A → Type 0
  Moves u = (u.base.stopped ≡ true) ⊎ ((0 < u.base.in_flight) ⊎ (u.awaiting ≢ none))

  go_on-Moves :
      (limit : Option ℕ) (w : ReplanWorld A) → w.base.in_flight ≡ 0 → Moves (go_on limit w)
  unfolding go_on
  go_on-Moves limit w idle = elim (advance_moves limit _ idle) [
    | inl e ↦ inl e
    | inr e ↦ inr (inl e)
  ]

  -- No turn is idle: with nothing in flight, a turn ends the loop, dispatches a node, or asks the
  -- replanner. So the loop never goes round without something that it waits for.
  pub replan_turn-Moves :
      (limit : Option ℕ) (w : ReplanWorld A) → w.base.in_flight ≡ 0 → Moves (replan_turn limit w)
  unfolding replan_turn offer_or_go_on
  replan_turn-Moves limit w idle =
      if_cases Moves (any_pending w.base.records || has_replan_work w) _ _
        (λ _.
          if_cases Moves w.base.aborted _ _ (λ _. inl refl)
            (λ _.
              if_cases Moves (ltb 0 w.budget) _ _
                (λ _. elim (Option-cases (failed_to_replan w.offered w.base.records)) [
                  | inl e ↦ rw e (go_on-Moves limit w idle)
                  | inr (id, e) ↦ rw e (inr (inr (λ p. absurd cc)))
                ])
                (λ _. go_on-Moves limit w idle)))
        (λ _. inl refl)
