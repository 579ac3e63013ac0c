-- ===== src/Dag/Node/Sampling.antt =====
-- Best-of-N: what it accepts, and how many attempts it makes.
use agent_sdk.Common.{
  ℕ, ◌≤◌, ◌≡◌, arith, List, none, if◌then◌else◌, ltb, some, ◌++◌, ◌⊎◌, ◌-◌, length, inl, inr,
  if_both,
}
use agent_sdk.Dag.{DagNodeSpec, NodeRecord, Settings, Surroundings, settled, done, VerifierVerdict}
use agent_sdk.Dag.Node.{
  run_best_of_n, run_batch, phase1_size, settle_verdict, judge, probe_or_escalate,
}

module _ {A : Type 0} where
  abbrev pub first_batch : Settings → Surroundings A → ℕ → DagNodeSpec A → List A
  first_batch input s samples spec =
      run_batch spec s.replies 0 (phase1_size input.best_of_n samples)

  -- All candidates that the last verdict is on.
  abbrev pub all_candidates : Settings → Surroundings A → ℕ → DagNodeSpec A → List A
  all_candidates input s samples spec =
      let size = phase1_size input.best_of_n samples in
      if ltb size samples
      then run_batch spec s.replies 0 size ++ run_batch spec s.replies size (samples - size)
      else run_batch spec s.replies 0 size

  -- Done, with an output that the verdict accepts.
  abbrev pub DoneWith : NodeRecord A → VerifierVerdict A → Type 0
  DoneWith out v = (a : A) × (out.output ≡ some a) × (v.accepted ≡ some a)

  settle_verdict_done :
      (r : NodeRecord A) (n : ℕ) (v : VerifierVerdict A)
      → (settle_verdict r n v).status ≡ settled done
      → DoneWith (settle_verdict r n v) v
  unfolding settle_verdict
  settle_verdict_done r n v h = ground arith

  judge_done :
      (v : List A → VerifierVerdict A) (c : List A) (n : ℕ) (r : NodeRecord A)
      → (judge v c n r).status ≡ settled done
      → DoneWith (judge v c n r) (v c)
  unfolding judge
  judge_done v c n r h =
      ground (arith, settle_verdict_done (record r { attempts = n }) (length c) (v c))

  probe_or_escalate_done :
      (input : Settings) (s : Surroundings A) (samples : ℕ) (first : List A) (r : NodeRecord A)
      → let out = probe_or_escalate input s.probe s.verifier s.replies samples first r in
        let size = phase1_size input.best_of_n samples in
        out.status ≡ settled done
        → DoneWith out (s.probe first)
          ⊎ DoneWith out (s.verifier (first ++ run_batch r.spec s.replies size (samples - size)))
  unfolding probe_or_escalate
  probe_or_escalate_done input s samples first r h =
      let size = phase1_size input.best_of_n samples in
      let all = first ++ run_batch r.spec s.replies size (samples - size) in
      ground (
        arith,
        settle_verdict_done (record r { attempts = size }) (length first) (s.probe first),
        judge_done s.verifier all samples r,
      )

  -- A node that best-of-N settles as done has an output that the verifier accepted: of the first
  -- batch at its first call, or of all candidates at its last.
  pub best_of_n_fail_closed :
      (input : Settings) (s : Surroundings A) (samples : ℕ) (r : NodeRecord A)
      → (run_best_of_n input s.probe s.verifier s.replies samples r).status ≡ settled done
      → (a : A) × ((run_best_of_n input s.probe s.verifier s.replies samples r).output ≡ some a)
        × (((s.probe (first_batch input s samples r.spec)).accepted ≡ some a)
            ⊎ ((s.verifier (all_candidates input s samples r.spec)).accepted ≡ some a))
  unfolding run_best_of_n
  best_of_n_fail_closed input s samples r =
      let size = phase1_size input.best_of_n samples in
      let first = first_batch input s samples r.spec in
      let Closed : List A → NodeRecord A → Type 0 = λ c out.
        out.status ≡ settled done
        → (a : A) × (out.output ≡ some a)
          × (((s.probe first).accepted ≡ some a) ⊎ ((s.verifier c).accepted ≡ some a)) in
      if_both Closed (ltb size samples) (first ++ run_batch r.spec s.replies size (samples - size))
        first (probe_or_escalate input s.probe s.verifier s.replies samples first r)
        (judge s.verifier first size r)
        (λ h. elim (probe_or_escalate_done input s samples first r h) [
          | inl (a, o, v) ↦ (a, o, inl v)
          | inr (a, o, v) ↦ (a, o, inr v)
        ])
        (λ h. let (a, o, v) = judge_done s.verifier first size r h in (a, o, inr v))

  -- Best-of-N makes at most `samples` attempts, and without a policy exactly that many.
  pub attempts-best_of_n :
      (input : Settings) (s : Surroundings A) (samples : ℕ) (r : NodeRecord A)
      → let out = run_best_of_n input s.probe s.verifier s.replies samples r in
        (out.attempts ≤ samples) × (input.best_of_n ≡ none → out.attempts ≡ samples)
  unfolding run_best_of_n
  attempts-best_of_n input s samples r = ground arith
