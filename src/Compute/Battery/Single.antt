-- ===== src/Compute/Battery/Single.antt =====
-- A battery of one hard rule over one candidate.
use agent_sdk.Compute.Battery.{
  run_verifier_battery, BatteryLens, governance_error, affirm, any_bad_score, hard, decide,
  deterministic, BatteryOptions, allowed_by, any_lens, judge_all, judge_candidate, tally_lenses,
  tally_lens, select, BatteryError, BatteryDecision, not_serializable, cannot_hash, finish,
}
use agent_sdk.Trace.Canonical.{Payload}
use agent_sdk.Common.{
  inl, true, ◌⊎◌, if◌then◌else◌, ap, ◌∙◌, [], ◌∷◌, false, none, inr, ℕ, ◌≡◌, ◌≤◌, leb, arith,
  Option, Bool, some, refl, sym,
}

finish-none :
    (bad unhashed : Bool) (d : BatteryDecision)
    → bad ≡ false
    → allowed_by (finish none bad unhashed d)
      ≡ (if unhashed then inl not_serializable else allowed_by (inr d))
finish-none false true d h = refl
finish-none false false d h = refl
finish-none true unhashed d h = absurd cc

reached : (unhashed b n : Bool) → (if unhashed then inl not_serializable else inr n) ≡ inr b → b ≡ n
reached true b n h = absurd cc
reached false b n h = cc

module _ {T : Type 0} where
  -- A rule that affirms, and can kill on its own.
  abbrev pub hard_rule : (T → ℕ) → BatteryLens T
  hard_rule score = record {
    evaluate = score;
    polarity = affirm;
    criticality = hard;
    engine = deterministic;
  }

  good_score :
      (c : T) (score : T → ℕ)
      → score c ≤ 1000
      → any_bad_score (hard_rule score ∷ []) (c ∷ []) ≡ false
  unfolding any_bad_score any_lens
  good_score c score s = ground arith

  decide_rule :
      (threshold : ℕ) (c : T) (score : T → ℕ)
      → allowed_by (inr (decide threshold (c ∷ []) (hard_rule score ∷ [])))
        ≡ inr (leb threshold (score c))
  unfolding decide judge_all judge_candidate tally_lenses tally_lens select
  decide_rule threshold c score = ground arith

  -- A battery of one rule that no guard stops: it fails if a value has no hash, and else allows the
  -- candidate exactly if its score reaches the threshold.
  pub run_hard_rule :
      (payload : T → Payload) (input : Payload) (opts : BatteryOptions) (c : T) (score : T → ℕ)
      → governance_error opts (c ∷ []) (hard_rule score ∷ []) ≡ none
      → score c ≤ 1000
      → allowed_by (run_verifier_battery payload input opts (c ∷ []) (hard_rule score ∷ [])) ≡ (
          if cannot_hash payload input (c ∷ [])
          then inl not_serializable
          else inr (leb opts.vote_threshold (score c)))
  unfolding run_verifier_battery
  run_hard_rule payload input opts c score g s =
      let lenses = hard_rule score ∷ [] in
      let d = decide opts.vote_threshold (c ∷ []) lenses in
      let unhashed = cannot_hash payload input (c ∷ []) in
      ap
        (λ (o : Option BatteryError).
          allowed_by (finish o (any_bad_score lenses (c ∷ [])) unhashed d))
        g
      ∙ finish-none (any_bad_score lenses (c ∷ [])) unhashed d (good_score c score s)
      ∙ ap (λ (r : BatteryError ⊎ Bool). if unhashed then inl not_serializable else r)
          (decide_rule opts.vote_threshold c score)

  pub no_error_raised :
      (payload : T → Payload) (input : Payload) (opts : BatteryOptions) (c : T) (score : T → ℕ)
      (o : Option BatteryError) (b : Bool)
      → governance_error opts (c ∷ []) (hard_rule score ∷ []) ≡ o
      → allowed_by (run_verifier_battery payload input opts (c ∷ []) (hard_rule score ∷ [])) ≡ inr b
      → o ≡ none
  unfolding run_verifier_battery
  no_error_raised payload input opts c score none b g h = refl
  no_error_raised payload input opts c score (some e) b g h =
      let lenses = hard_rule score ∷ [] in
      let d = decide opts.vote_threshold (c ∷ []) lenses in
      let raised =
        ap
          (λ (o : Option BatteryError).
            allowed_by
              (finish o (any_bad_score lenses (c ∷ [])) (cannot_hash payload input (c ∷ [])) d))
          g in
      absurd (cc (sym raised ∙ h))

  -- If the battery raises no error, it has allowed the candidate exactly if its score reaches the
  -- threshold.
  pub hard_rule-allowed :
      (payload : T → Payload) (input : Payload) (opts : BatteryOptions) (c : T) (score : T → ℕ)
      (b : Bool)
      → score c ≤ 1000
      → allowed_by (run_verifier_battery payload input opts (c ∷ []) (hard_rule score ∷ [])) ≡ inr b
      → b ≡ leb opts.vote_threshold (score c)
  hard_rule-allowed payload input opts c score b s h =
      reached (cannot_hash payload input (c ∷ [])) b (leb opts.vote_threshold (score c)) (
        sym (
          run_hard_rule payload input opts c score
            (no_error_raised payload input opts c score _ b refl h) s)
        ∙ h)

-- Once a battery of one rule has raised no error, no guard stops another one with the same options.
module _ {T U : Type 0} where
  same_guards :
      (opts : BatteryOptions) (c : T) (score : T → ℕ) (d : U) (score' : U → ℕ)
      → governance_error opts (c ∷ []) (hard_rule score ∷ [])
        ≡ governance_error opts (d ∷ []) (hard_rule score' ∷ [])
  unfolding governance_error any_lens
  same_guards opts c score d score' = refl

  pub hard_rule_again :
      (payload : T → Payload) (input : Payload) (payload' : U → Payload) (input' : Payload)
      (opts : BatteryOptions) (c : T) (score : T → ℕ) (b : Bool) (d : U) (score' : U → ℕ)
      → allowed_by (run_verifier_battery payload input opts (c ∷ []) (hard_rule score ∷ [])) ≡ inr b
      → score' d ≤ 1000
      → allowed_by (run_verifier_battery payload' input' opts (d ∷ []) (hard_rule score' ∷ [])) ≡ (
          if cannot_hash payload' input' (d ∷ [])
          then inl not_serializable
          else inr (leb opts.vote_threshold (score' d)))
  hard_rule_again payload input payload' input' opts c score b d score' h s =
      run_hard_rule payload' input' opts d score'
        (sym (same_guards opts c score d score')
          ∙ no_error_raised payload input opts c score _ b refl h)
        s
