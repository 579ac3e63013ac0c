-- ===== src/Compute/Battery/Gate.antt =====
-- The battery as a gate.
use agent_sdk.Compute.Battery.Completeness.{
  accepted_count, rejected_count, Retains, keep_rejected-Retains,
}
use agent_sdk.Trace.Canonical.{Payload}
use agent_sdk.Compute.Battery.{affirm, refute}
use agent_sdk.Compute.Battery.Selection.{Indexed, Selected, select_first}
use agent_sdk.Compute.Battery.{
  Tally, Polarity, count_score, tally_lens, tally_lenses, judge_candidate, judge_all, decide,
  run_verifier_battery, BatteryLens, BatteryOptions, no_tally, BatteryDecision, is_gating, is_hard,
  select,
}
use agent_sdk.Common.{
  suc, ℕ, ◌≡◌, Bool, arith, List, Bool-cases, ◌∷◌, length, suc, ◌+◌, inr, [], refl, inl, subst,
  none, ◌∙◌,
}

-- How many of each kind of lens were counted.
record SameCounts (t u : Tally) : Type 0 where
  affirms : t.affirm_count ≡ u.affirm_count
  refutes : t.refute_gating ≡ u.refute_gating

count_score-SameCounts :
    (threshold m n : ℕ) (p : Polarity) (b : Bool) (t u : Tally)
    → SameCounts t u
    → SameCounts (count_score threshold p b m t) (count_score threshold p b n u)
count_score-SameCounts threshold m n affirm b t u c = record {
  affirms = omega (arith, c.affirms);
  refutes = c.refutes;
}
count_score-SameCounts threshold m n refute b t u c = record {
  affirms = c.affirms;
  refutes = omega (arith, c.refutes);
}

-- The decision on so many candidates is right.
abbrev pub Decides : ℕ → BatteryDecision → Type 0
Decides n d =
    Selected d.verdicts d.accepted
    × (length d.verdicts ≡ n)
    × Retains d.verdicts d.accepted d.rejected
    × (length d.rejected + accepted_count d.accepted ≡ n)

module _ {T : Type 0} where
  tally_lens-SameCounts :
      (threshold : ℕ) (c d : T) (lens : BatteryLens T) (t u : Tally)
      → SameCounts t u
      → SameCounts (tally_lens threshold c lens t) (tally_lens threshold d lens u)
  unfolding tally_lens
  tally_lens-SameCounts threshold c d lens t u same =
      elim (Bool-cases (is_gating lens.criticality)) [
        | inl e ↦ rw e (
            count_score-SameCounts threshold (lens.evaluate c) (lens.evaluate d) lens.polarity
              (is_hard lens.criticality) t u same)
        | inr e ↦ rw e same
      ]

  tally_lenses-SameCounts :
      (threshold : ℕ) (c d : T) (lenses : List (BatteryLens T)) (t u : Tally)
      → SameCounts t u
      → SameCounts (tally_lenses threshold c lenses t) (tally_lenses threshold d lenses u)
  unfolding tally_lenses
  tally_lenses-SameCounts threshold c d [] t u same = same
  tally_lenses-SameCounts threshold c d (lens ∷ lenses) t u same =
      tally_lenses-SameCounts threshold c d lenses (tally_lens threshold c lens t)
        (tally_lens threshold d lens u) (tally_lens-SameCounts threshold c d lens t u same)

  scale-judge_candidate :
      (threshold i j : ℕ) (lenses : List (BatteryLens T)) (c d : T)
      → (judge_candidate threshold lenses i c).scale ≡ (judge_candidate threshold lenses j d).scale
  unfolding judge_candidate
  scale-judge_candidate threshold i j lenses c d =
      let same =
        tally_lenses-SameCounts threshold c d lenses no_tally no_tally
          (record { affirms = refl; refutes = refl }) in
      rw (same.affirms, same.refutes) refl

  judge_all-Indexed :
      (threshold i : ℕ) (lenses : List (BatteryLens T)) (cs : List T) (d : T)
      → Indexed (judge_candidate threshold lenses 0 d).scale i (judge_all threshold lenses i cs)
  unfolding judge_all
  judge_all-Indexed threshold i lenses [] d = tt
  judge_all-Indexed threshold i lenses (c ∷ cs) d = (
    unfold judge_candidate in refl,
    scale-judge_candidate threshold i 0 lenses c d,
    judge_all-Indexed threshold (suc i) lenses cs d,
  )

  length-judge_all :
      (threshold i : ℕ) (lenses : List (BatteryLens T)) (cs : List T)
      → length (judge_all threshold lenses i cs) ≡ length cs
  unfolding judge_all
  length-judge_all threshold i lenses [] = refl
  length-judge_all threshold i lenses (c ∷ cs) =
      omega (arith, length-judge_all threshold (suc i) lenses cs)

  decide-Selected :
      (threshold : ℕ) (cs : List T) (lenses : List (BatteryLens T))
      → Decides (length cs) (decide threshold cs lenses)
  unfolding decide
  decide-Selected threshold [] lenses =
      (tt, refl, record { kept = λ v st. absurd st; only = λ v st. absurd st }, refl)
  decide-Selected threshold (c ∷ cs) lenses =
      let vs = judge_all threshold lenses 0 (c ∷ cs) in
      let s = (judge_candidate threshold lenses 0 c).scale in
      let ix = judge_all-Indexed threshold 0 lenses (c ∷ cs) c in
      let chosen = select_first s 0 vs (select none vs) ix refl in
      (
        chosen,
        length-judge_all threshold 0 lenses (c ∷ cs),
        keep_rejected-Retains s 0 vs (select none vs) ix chosen,
        rejected_count s 0 vs (select none vs) ix chosen
            ∙ length-judge_all threshold 0 lenses (c ∷ cs),
      )

  -- What a battery decides: the accepted candidate survived, and every other one was killed, or has a
  -- lower composite score, or the same one and comes later; without an accepted candidate, all were
  -- killed. There is a verdict for each candidate, and the rejected are all of them but the accepted
  -- one, that one not among them.
  pub run_verifier_battery-Selected :
      (payload : T → Payload) (input : Payload) (opts : BatteryOptions) (cs : List T)
      (lenses : List (BatteryLens T)) (d : BatteryDecision)
      → run_verifier_battery payload input opts cs lenses ≡ inr d
      → Decides (length cs) d
  unfolding run_verifier_battery
  run_verifier_battery-Selected payload input opts cs lenses d h =
      let same : decide opts.vote_threshold cs lenses ≡ d = ground arith in
      subst (Decides (length cs)) same (decide-Selected opts.vote_threshold cs lenses)
