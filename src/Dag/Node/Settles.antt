-- ===== src/Dag/Node/Settles.antt =====
-- An execution settles the node's status, and leaves its spec and the retries it has used.
use agent_sdk.Common.{
  ℕ, ◌≡◌, refl, String, List, Option, arith, length, Option-cases, inl, inr, ◌-◌, ◌++◌, true,
}
use agent_sdk.Common.Assoc.{get}
use agent_sdk.Dag.{NodeRecord, NodeOutcome, Surroundings, Settings, VerifierVerdict}
use agent_sdk.Dag.Records.{is_settled}
use agent_sdk.Dag.Node.{
  apply_outcome, done_outputs, run_map_over, resolve_array, aggregate, run_best_of_n, judge,
  settle_verdict, settle_failed, run_batch, phase1_size,
}

module _ {A : Type 0} where
  abbrev pub Settles : NodeRecord A → NodeRecord A → Type 0
  Settles r r' =
      (r'.spec ≡ r.spec) × (r'.retries_used ≡ r.retries_used) × (is_settled r'.status ≡ true)

  pub apply_outcome-Settles : (r : NodeRecord A) (o : NodeOutcome A) → Settles r (apply_outcome r o)
  unfolding apply_outcome
  apply_outcome-Settles r o = ground arith

  aggregate-Settles :
      (f : List (Option A) → A) (n : ℕ) (os : List (Option A)) (r : NodeRecord A)
      → Settles r (aggregate f n os r)
  unfolding aggregate
  aggregate-Settles f n os r = ground arith

  pub run_map_over-Settles :
      (s : Surroundings A) (dep : String) (r : NodeRecord A)
      → Settles r (run_map_over s.as_array s.of_array s.replies s.inputs dep r)
  unfolding run_map_over settle_failed
  run_map_over-Settles s dep r = elim (Option-cases (resolve_array s.as_array (get dep s.inputs))) [
    | inl e ↦ rw (e, run_map_over) (refl, refl, refl)
    | inr (xs, e) ↦
        rw (e, run_map_over)
          (aggregate-Settles s.of_array (length xs) (done_outputs r.spec s.replies 0 (length xs)) r)
  ]

  judge-Settles :
      (v : List A → VerifierVerdict A) (c : List A) (n : ℕ) (r : NodeRecord A)
      → Settles r (judge v c n r)
  unfolding judge
  judge-Settles v c n r = ground arith

  settle_verdict-Settles :
      (r : NodeRecord A) (n : ℕ) (v : VerifierVerdict A) → Settles r (settle_verdict r n v)
  unfolding settle_verdict
  settle_verdict-Settles r n v = ground arith

  pub run_best_of_n-Settles :
      (input : Settings) (s : Surroundings A) (samples : ℕ) (r : NodeRecord A)
      → Settles r (run_best_of_n input s.probe s.verifier s.replies samples r)
  unfolding run_best_of_n
  run_best_of_n-Settles input s samples r =
      let size = phase1_size input.best_of_n samples in
      let first = run_batch r.spec s.replies 0 size in
      ground (
        arith,
        settle_verdict-Settles (record r { attempts = size }) (length first) (s.probe first),
        judge-Settles s.verifier (first ++ run_batch r.spec s.replies size (samples - size)) samples
            r,
        judge-Settles s.verifier first size r,
      )
