-- ===== src/Dag/Replanning/Steps.antt =====
-- The loop with its replanner as an interleaving of steps, and what holds after any of them.
use agent_sdk.Dag.Replan.Splice.{replan-Fits, validate_replan_sound}
use agent_sdk.Dag.Loop.Safety.{specs-Background, specs-Quiet, specs-advance}
use agent_sdk.Dag.Replanning.Awaiting.{
  FailedAt-settled, explain-Quiet, failed_to_replan-FailedAt, count_running-explain, elem_of_failed,
}
use agent_sdk.Dag.Loop.Evolution.{defer_pending-Quiet, block_all-Quiet}
use agent_sdk.Dag.Run.Spec.{spec-run_node}
use agent_sdk.Dag.Run.{run_node}
use agent_sdk.Dag.Loop.Settling.{Ranked}
use agent_sdk.Dag.Replanning.Splicing.{
  FailedAt, UpstreamDone-splice_replan, count_running-splice_replan,
}
use agent_sdk.Dag.Loop.Steps.{
  IsValid, Background, settles, leaves, Background-IsValid, Quiet-UpstreamDone, advance-IsValid,
  block_all-IsValid, defer_pending-IsValid,
}
use agent_sdk.Dag.Validate.{ids}
use agent_sdk.Dag.Replanning.{
  ReplanWorld, specs, replan_turn, World, ReplanAnswer, settle_replan, failed_to_replan, explain,
  go_on, offer_or_go_on, judge_replan, any_pending, validate_replan, has_replan_work,
}
use agent_sdk.Common.{
  Option, List, ℕ, String, Distinct, ◌≡◌, some, false, none, arith, subst, refl, inl, inr, sym,
  if_cases, suc, ltb, Option-cases, length, ◌||◌, ◌∙◌,
}
use agent_sdk.Dag.{Settings, DagNodeSpec, NodeRecord, Reason}
use agent_sdk.Dag.Loop.Steps.{
  Background, settles, executes, resumes, breaks, rejects, leaves, aborts,
}
use agent_sdk.Dag.Loop.{caught}
use agent_sdk.Dag.Run.{execute_node, retry_or_settle}
use agent_sdk.Dag.Run.Spec.{execute_node-Settles, spec-retry_or_settle, retry-failed}
use agent_sdk.Dag.{replan_rejected, replan_error, cancelled}
use agent_sdk.Dag.Replanning.{threw_error, declined, proposed}

module _ {A : Type 0} where
  -- A turn of the loop, when it does not wait for the replanner; what goes on meanwhile; and the replanner's answer
  -- for the node that it was asked about.
  pub data ReplanStep (input : Settings) (limit : Option ℕ) (w : ReplanWorld A)
      : ReplanWorld A → Type 0 where
    turns :
        w.base.stopped ≡ false → w.awaiting ≡ none → ReplanStep input limit w (replan_turn limit w)
    meanwhile :
        {u : World A} → Background input w.base u → ReplanStep input limit w (record w { base = u })
    answers :
        (id : String) (a : ReplanAnswer A)
        → w.awaiting ≡ some id
        → ReplanStep input limit w (settle_replan id a w)

  pub data ReplanReach (input : Settings) (limit : Option ℕ) (w : ReplanWorld A)
      : ReplanWorld A → Type 0 where
    here : ReplanReach input limit w w
    next :
        {u v : ReplanWorld A}
        → ReplanReach input limit w u
        → ReplanStep input limit u v
        → ReplanReach input limit w v

  abbrev Awaits : Option String → List (NodeRecord A) → Type 0
  Awaits none rs = Unit
  Awaits (some id) rs = FailedAt id rs

  -- The graph has distinct ids, no missing dependency and no cycle.
  abbrev pub Sound : List (DagNodeSpec A) → Type 0
  Sound ss = Distinct (ids ss) × ((rank : String → ℕ) × Ranked rank ss ss)

  pub record IsSteady (limit : Option ℕ) (w : ReplanWorld A) : Type 0 where
    pub base_valid : IsValid limit w.base
    pub sound : Sound (specs w.base.records)
    pub awaited : Awaits w.awaiting w.base.records

  Awaits-Background :
      (input : Settings) (o : Option String) {w u : World A}
      → Background input w u
      → Awaits o w.records
      → Awaits o u.records
  Awaits-Background input none b f = tt
  Awaits-Background input (some id) (settles before after r s recalled at h given) f =
      FailedAt-settled id before after r (run_node input s recalled r) (λ e. absurd cc)
        (spec-run_node input s recalled r) (subst (λ (l : List (NodeRecord A)). FailedAt id l) at f)
  Awaits-Background input (some id) (executes before after r s at h given) f =
      FailedAt-settled id before after r (execute_node input s r) (λ e. absurd cc)
        (execute_node-Settles input s r).0 (subst (λ (l : List (NodeRecord A)). FailedAt id l) at f)
  Awaits-Background input (some id) (resumes before after r at h waits) f =
      FailedAt-settled id before after r (retry_or_settle input r) (retry-failed input r)
        (spec-retry_or_settle input r) (subst (λ (l : List (NodeRecord A)). FailedAt id l) at f)
  Awaits-Background input (some id) (breaks before after r text at h) f =
      FailedAt-settled id before after r (caught text r) (λ e. unfold caught in refl)
        (unfold caught in refl) (subst (λ (l : List (NodeRecord A)). FailedAt id l) at f)
  Awaits-Background input (some id) (rejects before after r text at h waits) f =
      FailedAt-settled id before after r (caught text r) (λ e. unfold caught in refl)
        (unfold caught in refl) (subst (λ (l : List (NodeRecord A)). FailedAt id l) at f)
  Awaits-Background input (some id) (leaves others n g k) f = f
  Awaits-Background input (some id) aborts f = f

  -- A step of the base loop that keeps the graph, with nothing awaited.
  kept :
      (limit : Option ℕ) (w : ReplanWorld A) (u : World A)
      → IsSteady limit w
      → w.awaiting ≡ none
      → IsValid limit u
      → specs u.records ≡ specs w.base.records
      → IsSteady limit (record w { base = u })
  kept limit w u v idle valid same = record {
    base_valid = valid;
    sound = subst Sound (sym same) v.sound;
    awaited = rw idle tt;
  }

  go_on-IsSteady :
      (limit : Option ℕ) (w : ReplanWorld A)
      → w.awaiting ≡ none
      → IsSteady limit w
      → IsSteady limit (go_on limit w)
  unfolding go_on
  go_on-IsSteady limit w idle v =
      let fuel = suc (length w.base.records) in
      kept limit w _ v idle
        (advance-IsValid limit _ (block_all-IsValid limit w.base fuel v.base_valid))
        (specs-advance limit _ ∙ specs-Quiet w.base.records _ (block_all-Quiet fuel w.base.records))

  offer_or_go_on-IsSteady :
      (limit : Option ℕ) (w : ReplanWorld A)
      → w.awaiting ≡ none
      → IsSteady limit w
      → IsSteady limit (offer_or_go_on limit w)
  unfolding offer_or_go_on
  offer_or_go_on-IsSteady limit w idle v =
      if_cases (IsSteady limit) (ltb 0 w.budget) _ _
        (λ _. elim (Option-cases (failed_to_replan w.offered w.base.records)) [
          | inl e ↦ rw e (go_on-IsSteady limit w idle v)
          | inr (id, e) ↦ rw e (record {
            base_valid = v.base_valid;
            sound = v.sound;
            awaited = failed_to_replan-FailedAt w.offered w.base.records id v.sound.0 e;
          })
        ])
        (λ _. go_on-IsSteady limit w idle v)

  turn-IsSteady :
      (limit : Option ℕ) (w : ReplanWorld A)
      → w.awaiting ≡ none
      → IsSteady limit w
      → IsSteady limit (replan_turn limit w)
  unfolding replan_turn
  turn-IsSteady limit w idle v =
      if_cases (IsSteady limit) (any_pending w.base.records || has_replan_work w) _ _
        (λ _.
          if_cases (IsSteady limit) w.base.aborted _ _
            (λ _.
              kept limit w _ v idle (defer_pending-IsValid limit w.base cancelled v.base_valid)
                (specs-Quiet w.base.records _ (defer_pending-Quiet cancelled w.base.records)))
            (λ _. offer_or_go_on-IsSteady limit w idle v))
        (λ _.
          kept limit w _ v idle
            (record {
              upstream_done = v.base_valid.upstream_done;
              slots = v.base_valid.slots;
              within = v.base_valid.within;
            })
            refl)

  explained-IsSteady :
      (limit : Option ℕ) (w : ReplanWorld A) (id : String) (why : Reason → Reason)
      → IsSteady limit w
      → IsSteady limit (record w {
        base = record w.base { records = explain id why w.base.records };
        awaiting = none;
      })
  explained-IsSteady limit w id why v =
      let rs = w.base.records in
      let q = explain-Quiet id why rs in
      record {
        base_valid = record {
          upstream_done = λ ok. Quiet-UpstreamDone rs _ q (v.base_valid.upstream_done ok);
          slots = omega (arith, v.base_valid.slots, count_running-explain id why rs);
          within = v.base_valid.within;
        };
        sound = subst Sound (sym (specs-Quiet rs _ q)) v.sound;
        awaited = tt;
      }

  judged-IsSteady :
      (limit : Option ℕ) (w : ReplanWorld A) (id : String) (returned : List (DagNodeSpec A))
      → w.awaiting ≡ some id
      → IsSteady limit w
      → IsSteady limit (judge_replan id returned w)
  unfolding judge_replan
  judged-IsSteady limit w id returned asked v =
      let rs = w.base.records in
      let f : FailedAt id rs = subst (λ (o : Option String). Awaits o rs) asked v.awaited in
      elim (Option-cases (validate_replan id returned (specs rs))) [
        | inr (e, h) ↦
            rw (h, judge_replan) (explained-IsSteady limit w id (λ r. replan_rejected r e) v)
        | inl h ↦
            (let fits = replan-Fits id returned (specs rs) h in
              rw (h, judge_replan)
                (record {
                  base_valid = record {
                    upstream_done = λ ok.
                        UpstreamDone-splice_replan id returned rs fits f
                          (v.base_valid.upstream_done ok);
                    slots = omega (
                      arith,
                      v.base_valid.slots,
                      count_running-splice_replan id returned rs fits v.sound.0 f,
                    );
                    within = v.base_valid.within;
                  };
                  sound = validate_replan_sound id returned rs v.sound.0 (elem_of_failed id rs f) h;
                  awaited = tt;
                }))
      ]

  Step-IsSteady :
      (input : Settings) (limit : Option ℕ) {w u : ReplanWorld A}
      → IsSteady limit w
      → ReplanStep input limit w u
      → IsSteady limit u
  unfolding settle_replan
  Step-IsSteady input limit {w} v (turns go idle) = turn-IsSteady limit w idle v
  Step-IsSteady input limit {w} v (meanwhile b) = record {
    base_valid = Background-IsValid input limit v.base_valid b;
    sound = subst Sound (sym (specs-Background input b)) v.sound;
    awaited = Awaits-Background input w.awaiting b v.awaited;
  }
  Step-IsSteady input limit {w} v (answers id (threw_error text) asked) =
      explained-IsSteady limit w id (λ r. replan_error r text) v
  Step-IsSteady input limit v (answers id declined asked) = record {
    base_valid = v.base_valid;
    sound = v.sound;
    awaited = tt;
  }
  Step-IsSteady input limit {w} v (answers id (proposed returned) asked) =
      judged-IsSteady limit w id returned asked v

  pub Reach-IsSteady :
      (input : Settings) (limit : Option ℕ) {w u : ReplanWorld A}
      → IsSteady limit w
      → ReplanReach input limit w u
      → IsSteady limit u
  Reach-IsSteady input limit v here = v
  Reach-IsSteady input limit v (next r st) =
      Step-IsSteady input limit (Reach-IsSteady input limit v r) st
