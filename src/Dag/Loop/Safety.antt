-- ===== src/Dag/Loop/Safety.antt =====
-- The graph that the parts of a turn and the nodes in flight leave as it is, and the start of a run.
use agent_sdk.Dag.Loop.Slots.{count_running, WithinLimit-zero}
use agent_sdk.Dag.Loop.Upstream.{UpstreamDone}
use agent_sdk.Dag.Records.{specs}
use agent_sdk.Common.{
  ◌++◌, ℕ, suc, ◌≡◌, refl, List, [], ◌∷◌, arith, Pointwise, Option, false, if_cases, ◌∙◌, ◌&&◌,
  ◌==◌, if◌then◌else◌, ap, sym,
}
use agent_sdk.Dag.{NodeRecord, Settings, pending, unresolved, DagNodeSpec}
use agent_sdk.Dag.Loop.{World, caught, advance, dispatch, any_ready, is_ready, below_limit}
use agent_sdk.Dag.Loop.Steps.{
  Background, settles, executes, resumes, breaks, rejects, leaves, aborts, IsValid, run_node-Quiet,
  execute_node-Quiet, retry_or_settle-Quiet, caught-Quiet,
}
use agent_sdk.Dag.Loop.Evolution.{Quiet, defer_pending-Quiet}

module _ {A : Type 0} where
  pub specs-Quiet : (rs ts : List (NodeRecord A)) → Pointwise Quiet rs ts → specs ts ≡ specs rs
  specs-Quiet [] [] q = refl
  specs-Quiet (r ∷ rs) (t ∷ ts) q = cc (q.0.same_spec, specs-Quiet rs ts q.1)
  specs-Quiet [] (t ∷ ts) q = absurd q
  specs-Quiet (r ∷ rs) [] q = absurd q

  specs-dispatch :
      (limit : Option ℕ) (rs : List (NodeRecord A)) (n : ℕ) (left : List (NodeRecord A))
      → specs (dispatch limit rs n left).0 ≡ specs left
  unfolding dispatch
  specs-dispatch limit rs n [] = refl
  specs-dispatch limit rs n (r ∷ left) =
      let go = is_ready rs r && below_limit limit n in
      ground (arith, specs-dispatch limit rs (if go then suc n else n) left)

  pub specs-advance :
      (limit : Option ℕ) (w : World A) → specs (advance limit w).records ≡ specs w.records
  unfolding advance
  specs-advance limit w =
      let P : World A → Type 0 = λ u. specs u.records ≡ specs w.records in
      if_cases P (any_ready w.records w.records) _ _
        (λ _. specs-dispatch limit w.records w.in_flight w.records)
        (λ _.
          if_cases P (w.in_flight == 0) _ _
            (λ _. specs-Quiet w.records _ (defer_pending-Quiet unresolved w.records)) (λ _. refl))

  specs-same :
      (before after : List (NodeRecord A)) (r r' : NodeRecord A)
      → r'.spec ≡ r.spec
      → specs (before ++ (r' ∷ after)) ≡ specs (before ++ (r ∷ after))
  specs-same [] after r r' p = ap (λ (x : DagNodeSpec A). x ∷ specs after) p
  specs-same (b ∷ before) after r r' p =
      ap (λ (l : List (DagNodeSpec A)). b.spec ∷ l) (specs-same before after r r' p)

  specs-at :
      {rs : List (NodeRecord A)} (before after : List (NodeRecord A)) (r r' : NodeRecord A)
      → rs ≡ before ++ (r ∷ after)
      → Quiet r r'
      → specs (before ++ (r' ∷ after)) ≡ specs rs
  specs-at before after r r' at q =
      specs-same before after r r' q.same_spec ∙ ap (λ (l : List (NodeRecord A)). specs l) (sym at)

  pub specs-Background :
      (input : Settings) {w u : World A} → Background input w u → specs u.records ≡ specs w.records
  specs-Background input (settles before after r s recalled at h given) =
      specs-at before after r _ at (run_node-Quiet input s recalled r h)
  specs-Background input (executes before after r s at h given) =
      specs-at before after r _ at (execute_node-Quiet input s r h)
  specs-Background input (resumes before after r at h waits) =
      specs-at before after r _ at (retry_or_settle-Quiet input r)
  specs-Background input (breaks before after r text at h) =
      specs-at before after r _ at (caught-Quiet text r h)
  specs-Background input (rejects before after r text at h waits) =
      specs-same before after r (caught text r) (unfold caught in refl)
      ∙ ap (λ (rs : List (NodeRecord A)). specs rs) (sym at)
  specs-Background input (leaves others n f g) = refl
  specs-Background input aborts = refl

  -- The world in which `execute` starts: all records are pending.
  abbrev pub start : List (NodeRecord A) → World A
  start rs = record {
    records = rs;
    in_flight = 0;
    finishing = 0;
    aborted = false;
    stopped = false;
    write_rejected = false;
  }

  abbrev pub AllPending : List (NodeRecord A) → Type 0
  AllPending [] = Unit
  AllPending (r ∷ rs) = (r.status ≡ pending) × AllPending rs

  pending-UpstreamDone : (rs l : List (NodeRecord A)) → AllPending l → UpstreamDone rs l
  pending-UpstreamDone rs [] p = tt
  pending-UpstreamDone rs (r ∷ l) p = (λ h. ground arith, pending-UpstreamDone rs l p.1)

  count_running_of_pending : (l : List (NodeRecord A)) → AllPending l → count_running l ≡ 0
  count_running_of_pending [] p = refl
  count_running_of_pending (r ∷ l) p = ground (arith, count_running_of_pending l p.1)

  pub start-IsValid :
      (limit : Option ℕ) (rs : List (NodeRecord A)) → AllPending rs → IsValid limit (start rs)
  start-IsValid limit rs p = record {
    upstream_done = λ ok. pending-UpstreamDone rs rs p;
    slots = omega (arith, count_running_of_pending rs p);
    within = WithinLimit-zero limit;
  }
