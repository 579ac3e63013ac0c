-- ===== src/Proof/Chain/Check.antt =====
-- What verifyChain accepts, said without the order of its checks.
use agent_sdk.Common.{
  ◌≡◌, some, inr, suc, [], refl, arith, eq_iff, sym, length, none, ◌⊎◌, subst, inl, ◌↔◌, ◌==◌,
  false, ap, ◌∙◌,
}
use agent_sdk.Proof.Chain.{
  Hashing, String, verify_steps, ℕ, Option, List, TraceStep, ◌∷◌, ◌≡◌, expected_prev,
  compute_step_hash, Trace, verify_root, verify_chain, last_hash, ProofChain, build_entries,
  ReceiptStatus, valid, root_payload, Flaw, build_chain,
}

module _ {D Body Config : Type 0} (h : Hashing D Body Config) where
  -- Each step carries its place, its run, its own hash, and that of the step before it.
  abbrev pub IsLinked : String → ℕ → D → List (TraceStep D Body) → Type 0
  IsLinked run_id i prev [] = Unit
  IsLinked run_id i prev (s ∷ ss) =
      (s.index ≡ i)
      × (s.run_id ≡ run_id)
      × (s.step_hash ≡ compute_step_hash h s run_id)
      × (s.prev_step_hash ≡ prev)
      × IsLinked run_id (suc i) (compute_step_hash h s run_id) ss

  unfoldable pub last_computed : String → Option D → List (TraceStep D Body) → Option D
  last_computed run_id last [] = last
  last_computed run_id last (s ∷ ss) = last_computed run_id (some (compute_step_hash h s run_id)) ss

  pub verify_steps-IsLinked :
      (run_id : String) (i : ℕ) (last : Option D) (ss : List (TraceStep D Body)) (l : Option D)
      → verify_steps h run_id i last ss ≡ inr l
      → IsLinked run_id i (expected_prev h last) ss × (l ≡ last_computed run_id last ss)
  unfolding verify_steps last_computed
  verify_steps-IsLinked run_id i last [] l e = (tt, cc)
  verify_steps-IsLinked run_id i last (s ∷ ss) l e =
      let computed = compute_step_hash h s run_id in
      let rest : verify_steps h run_id (suc i) (some computed) ss ≡ inr l = ground arith in
      let (linked, at) = verify_steps-IsLinked run_id (suc i) (some computed) ss l rest in
      (
        (
          ground arith,
          ground (arith, eq_iff s.run_id run_id),
          sym ((h.same_iff computed s.step_hash).0 (ground arith)),
          (h.same_iff s.prev_step_hash (expected_prev h last)).0 (ground arith),
          linked,
        ),
        at,
      )

  pub IsLinked-verify_steps :
      (run_id : String) (i : ℕ) (last : Option D) (ss : List (TraceStep D Body))
      → IsLinked run_id i (expected_prev h last) ss
      → verify_steps h run_id i last ss ≡ inr (last_computed run_id last ss)
  unfolding verify_steps last_computed
  IsLinked-verify_steps run_id i last [] k = refl
  IsLinked-verify_steps run_id i last (s ∷ ss) k =
      let computed = compute_step_hash h s run_id in
      let (at, run, own, prev, linked) = k in
      ground (
        arith,
        (eq_iff s.run_id run_id).1 run,
        (h.same_iff computed s.step_hash).1 (sym own),
        (h.same_iff s.prev_step_hash (expected_prev h last)).1 prev,
        IsLinked-verify_steps run_id (suc i) (some computed) ss linked,
      )

  -- What a chain that is accepted says of its trace, and of the chain.
  abbrev pub IsAccepted : Trace D Body Config → ProofChain D → Type 0
  IsAccepted t c =
      (length t.steps ≡ t.total_steps)
      × IsLinked t.run_id 0 h.genesis t.steps
      × (c.root_hash ≡ h.of_root (root_payload h t (last_computed t.run_id none t.steps)))
      × (t.config_hash ≡ h.of_config t.config)

  verify_root-valid :
      (t : Trace D Body Config) (c : ProofChain D) (last : Option D) (r : Option ReceiptStatus)
      → verify_root h t c last ≡ valid r
      → (c.root_hash ≡ h.of_root (root_payload h t last)) × (t.config_hash ≡ h.of_config t.config)
  unfolding verify_root
  verify_root-valid t c last r e = (
    (h.same_iff c.root_hash (h.of_root (root_payload h t last))).0 (ground arith),
    (h.same_iff t.config_hash (h.of_config t.config)).0 (ground arith),
  )

  steps_intact :
      (t : Trace D Body Config) (c : ProofChain D) (r : Option ReceiptStatus)
      (o : (ℕ × Flaw) ⊎ Option D)
      → verify_steps h t.run_id 0 none t.steps ≡ o
      → verify_chain h t c ≡ valid r
      → (last : Option D) × (o ≡ inr last) × (verify_root h t c last ≡ valid r)
  unfolding verify_chain
  steps_intact t c r (inl (i, flaw)) e v = absurd (ground arith)
  steps_intact t c r (inr last) e v = (last, refl, ground arith)

  pub verify_chain-IsAccepted :
      (t : Trace D Body Config) (c : ProofChain D) (r : Option ReceiptStatus)
      → verify_chain h t c ≡ valid r
      → IsAccepted t c
  unfolding verify_chain
  verify_chain-IsAccepted t c r v =
      let (last, at, root) = steps_intact t c r (verify_steps h t.run_id 0 none t.steps) refl v in
      let (linked, is) = verify_steps-IsLinked t.run_id 0 none t.steps last at in
      let (root_ok, config_ok) = verify_root-valid t c last r root in
      (
        ground arith,
        linked,
        subst (λ (l : Option D). c.root_hash ≡ h.of_root (root_payload h t l)) is root_ok,
        config_ok,
      )

  IsAccepted-verify_chain :
      (t : Trace D Body Config) (c : ProofChain D)
      → IsAccepted t c
      → verify_chain h t c ≡ valid t.receipt_status
  unfolding verify_chain verify_root
  IsAccepted-verify_chain t c (len, linked, root, config) = ground (
    arith,
    IsLinked-verify_steps t.run_id 0 none t.steps linked,
    (h.same_iff c.root_hash (h.of_root (root_payload h t (last_computed t.run_id none t.steps)))).1
        root,
    (h.same_iff t.config_hash (h.of_config t.config)).1 config,
  )

  last_hash-build_entries :
      (run_id : String) (last : Option D) (s : TraceStep D Body) (ss : List (TraceStep D Body))
      → last_hash h (build_entries h run_id (s ∷ ss)) ≡ last_computed run_id last (s ∷ ss)
  unfolding last_hash build_entries last_computed
  last_hash-build_entries run_id last s [] = refl
  last_hash-build_entries run_id last s (s' ∷ ss) =
      last_hash-build_entries run_id (some (compute_step_hash h s run_id)) s' ss

  last_hash-some_steps :
      (run_id : String) (ss : List (TraceStep D Body))
      → length ss == 0 ≡ false
      → last_hash h (build_entries h run_id ss) ≡ last_computed run_id none ss
  last_hash-some_steps run_id [] e = absurd (ground arith)
  last_hash-some_steps run_id (s ∷ ss) e = last_hash-build_entries run_id none s ss

  built_root :
      (t : Trace D Body Config) (c : ProofChain D)
      → build_chain h t ≡ some c
      → c.root_hash ≡ h.of_root (root_payload h t (last_computed t.run_id none t.steps))
  unfolding build_chain
  built_root t c b =
      let e : length t.steps == 0 ≡ false = ground arith in
      let entries = build_entries h t.run_id t.steps in
      let made : record {
        entries = entries;
        root_hash = h.of_root (root_payload h t (last_hash h entries));
      }
          ≡ c =
        ground arith in
      sym (ap (λ (x : ProofChain D). x.root_hash) made)
      ∙ ap (λ (l : Option D). h.of_root (root_payload h t l))
          (last_hash-some_steps t.run_id t.steps e)

  -- The chain that buildChain makes of a trace passes verifyChain exactly if the trace counts its steps,
  -- each step carries its place, its run, its own hash and that of the step before it, and the
  -- configuration is the one that the trace names by its hash.
  pub verify_chain-build_chain :
      (t : Trace D Body Config) (c : ProofChain D)
      → build_chain h t ≡ some c
      → (verify_chain h t c ≡ valid t.receipt_status) ↔ (
          (length t.steps ≡ t.total_steps)
          × IsLinked t.run_id 0 h.genesis t.steps
          × (t.config_hash ≡ h.of_config t.config))
  verify_chain-build_chain t c b = (
    λ v.
        (let (len, linked, root, config) = verify_chain-IsAccepted t c t.receipt_status v in
          (len, linked, config)),
    λ k. IsAccepted-verify_chain t c (k.0, k.1, built_root t c b, k.2),
  )
