-- ===== src/Proof/Chain/Evidence.antt =====
-- Tamper evidence: a chain's root fixes the steps, the ids and the configuration of its trace.
use agent_sdk.Common.{[], ◌∷◌, some, ap, arith, suc, ◌∙◌, sym, refl, subst, none}
use agent_sdk.Common.{◌≡◌, String, ℕ, Option, List, length}
use agent_sdk.Proof.Chain.Check.{last_computed, IsLinked, verify_chain-IsAccepted}
use agent_sdk.Proof.Chain.{
  Hashing, StepPayload, Trace, ◌≡◌, RootPayload, TraceStep, expected_prev, compute_step_hash,
  payload, ProofChain, ReceiptStatus, verify_chain, valid,
}

module _ {D Body Config : Type 0} (h : Hashing D Body Config) where
  -- No two payloads that differ have the same digest.
  pub record IsCollisionFree : Type 0 where
    pub steps_apart : (p q : StepPayload D Body) → h.of_step p ≡ h.of_step q → p ≡ q
    pub roots_apart : (p q : RootPayload D) → h.of_root p ≡ h.of_root q → p ≡ q
    pub configs_apart : (p q : Config) → h.of_config p ≡ h.of_config q → p ≡ q

  -- All of the trace but its two times, its status and that of its receipt, which no hash covers.
  abbrev pub SameRun : Trace D Body Config → Trace D Body Config → Type 0
  SameRun t u =
      (t.run_id ≡ u.run_id)
      × (t.agent_id ≡ u.agent_id)
      × (t.agent_version ≡ u.agent_version)
      × (t.config ≡ u.config)
      × (t.steps ≡ u.steps)

  -- By the last hash, the steps are fixed from the last one to the first.
  same_steps :
      (run_id : String) (i : ℕ) (a b : Option D) (ss us : List (TraceStep D Body))
      → IsCollisionFree
      → length ss ≡ length us
      → IsLinked h run_id i (expected_prev h a) ss
      → IsLinked h run_id i (expected_prev h b) us
      → last_computed h run_id a ss ≡ last_computed h run_id b us
      → (ss ≡ us) × (expected_prev h a ≡ expected_prev h b)
  unfolding last_computed
  same_steps run_id i a b [] [] free len k l e = (refl, ap (λ (o : Option D). expected_prev h o) e)
  same_steps run_id i a b [] (u ∷ us) free len k l e = absurd (omega arith)
  same_steps run_id i a b (s ∷ ss) [] free len k l e = absurd (omega arith)
  same_steps run_id i a b (s ∷ ss) (u ∷ us) free len k l e =
      let d = compute_step_hash h s run_id in
      let f = compute_step_hash h u run_id in
      let (k0, k1, k2, k3, k4) = k in
      let (l0, l1, l2, l3, l4) = l in
      let (tail, hash) =
        same_steps run_id (suc i) (some d) (some f) ss us free (omega arith) k4 l4 e in
      let p = free.steps_apart (payload h s run_id) (payload h u run_id) hash in
      let same_body : s.body ≡ u.body = ap (λ (x : StepPayload D Body). x.body) p in
      let same_prev : s.prev_step_hash ≡ u.prev_step_hash =
        ap (λ (x : StepPayload D Body). x.prev_step_hash) p in
      let head : s ≡ u = λ j. record {
        index = (k0 ∙ sym l0) j;
        run_id = (k1 ∙ sym l1) j;
        prev_step_hash = same_prev j;
        step_hash = (k2 ∙ hash ∙ sym l2) j;
        body = same_body j;
      } in
      (cc, cc)

  -- Tamper evidence: if no two payloads that differ have the same digest, two traces that pass
  -- verifyChain against chains with the same root hash are the same run: they agree on the run's and
  -- the agent's ids, the version, the configuration, and every step. The times, the status of
  -- the run and that of the receipt may differ, since no hash covers them.
  pub same_root-SameRun :
      (t u : Trace D Body Config) (c e : ProofChain D) (r q : Option ReceiptStatus)
      → IsCollisionFree
      → c.root_hash ≡ e.root_hash
      → verify_chain h t c ≡ valid r
      → verify_chain h u e ≡ valid q
      → SameRun t u
  same_root-SameRun t u c e r q free same v w =
      let (len, linked, root, config) = verify_chain-IsAccepted h t c r v in
      let (len', linked', root', config') = verify_chain-IsAccepted h u e q w in
      let p = free.roots_apart _ _ (sym root ∙ same ∙ root') in
      let run : t.run_id ≡ u.run_id = ap (λ (x : RootPayload D). x.run_id) p in
      let total : t.total_steps ≡ u.total_steps = ap (λ (x : RootPayload D). x.total_steps) p in
      let hashes : t.config_hash ≡ u.config_hash = ap (λ (x : RootPayload D). x.config_hash) p in
      let last = ap (λ (x : RootPayload D). x.last_step_hash) p in
      let moved : IsLinked h t.run_id 0 h.genesis u.steps =
        subst (λ (x : String). IsLinked h x 0 h.genesis u.steps) (sym run) linked' in
      let last' : last_computed h t.run_id none t.steps ≡ last_computed h t.run_id none u.steps =
        last ∙ ap (λ (x : String). last_computed h x none u.steps) (sym run) in
      (
        run,
        ap (λ (x : RootPayload D). x.agent_id) p,
        ap (λ (x : RootPayload D). x.agent_version) p,
        free.configs_apart t.config u.config (sym config ∙ hashes ∙ config'),
        (same_steps t.run_id 0 none none t.steps u.steps free (len ∙ total ∙ sym len') linked moved
            last').0,
      )
