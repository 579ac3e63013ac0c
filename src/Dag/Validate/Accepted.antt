-- ===== src/Dag/Validate/Accepted.antt =====
-- What `execute` may rely on: the records of a graph that `runDag` accepts.
use agent_sdk.Dag.Records.{specs, has_id}
use agent_sdk.Common.{
  ◌⊎◌, ◌≡◌, Bool, Distinct, inr, none, elem, ◌∷◌, All, ℕ, true, inl, false, arith, [], subst, refl,
  sym, ap, eq_refl, str_eq-cases,
}
use agent_sdk.Dag.{DagNodeSpec, NodeRecord, List, String}
use agent_sdk.Dag.Validate.{
  ids, SchedulerError, build_records, new_record, add_record, validate, check_graph, missing_dep,
  assert_no_missing_deps, ◌⊎◌,
}
use agent_sdk.Dag.Validate.Acyclic.{AllKnown, assert_acyclic_sound}
use agent_sdk.Dag.Validate.Rank.{has_id-ids}
use agent_sdk.Dag.Loop.Settling.{Ranked}
use agent_sdk.Dag.Loop.Safety.{AllPending}

module _ {A : Type 0} where
  record Built (seen : List String) (ss : List (DagNodeSpec A)) (rs : List (NodeRecord A))
      : Type 0 where
    same_specs : specs rs ≡ ss
    pending_all : AllPending rs
    distinct : Distinct (ids ss)
    unseen : (k : String) → elem k seen ≡ true → elem k (ids ss) ≡ false

  consed :
      (r : NodeRecord A) (o : SchedulerError ⊎ List (NodeRecord A)) (rs : List (NodeRecord A))
      → add_record r o ≡ inr rs
      → (rs' : List (NodeRecord A)) × (o ≡ inr rs') × (rs ≡ r ∷ rs')
  consed r (inl e) rs h = absurd cc
  consed r (inr rs') rs h = (rs', refl, cc)

  build-Built :
      (seen : List String) (ss : List (DagNodeSpec A)) (rs : List (NodeRecord A))
      → build_records seen ss ≡ inr rs
      → Built seen ss rs
  unfolding build_records
  build-Built seen [] [] h = record {
    same_specs = refl;
    pending_all = tt;
    distinct = tt;
    unseen = λ k m. refl;
  }
  build-Built seen [] (r ∷ rs) h = absurd cc
  build-Built seen (s ∷ ss) rs h =
      let fresh : elem s.id seen ≡ false = ground arith in
      let (rs', e, p) = consed (new_record s) (build_records (s.id ∷ seen) ss) rs (ground arith) in
      let b = build-Built (s.id ∷ seen) ss rs' e in
      subst (λ (l : List (NodeRecord A)). Built seen (s ∷ ss) l) (sym p)
        (record {
          same_specs = ap (λ (l : List (DagNodeSpec A)). s ∷ l) b.same_specs;
          pending_all = (refl, b.pending_all);
          distinct = (b.unseen s.id (ground (arith, eq_refl s.id)), b.distinct);
          unseen = λ k m. elim (str_eq-cases s.id k) [
            | inl (q, y, y') ↦
                absurd (let m' = subst (λ (x : String). elem x seen ≡ true) (sym q) m in cc)
            | inr (q, y, y') ↦ ground (arith, b.unseen k)
          ];
        })

  known-All :
      (ns : List (DagNodeSpec A)) (id : String) (ds : List String)
      → missing_dep (ids ns) id ds ≡ none
      → All (λ (d : String). has_id d ns ≡ true) ds
  unfolding missing_dep
  known-All ns id [] h = tt
  known-All ns id (d ∷ ds) h = (ground (arith, has_id-ids d ns), known-All ns id ds (ground arith))

  no_missing-AllKnown :
      (ns l : List (DagNodeSpec A)) → assert_no_missing_deps (ids ns) l ≡ none → AllKnown ns l
  unfolding assert_no_missing_deps
  no_missing-AllKnown ns [] h = tt
  no_missing-AllKnown ns (s ∷ l) h =
      (known-All ns s.id s.depends_on (ground arith), no_missing-AllKnown ns l (ground arith))

  -- The records of a graph that is accepted are its nodes, all pending, and have a rank that falls
  -- along dependencies: there is no cycle, and no dependency is missing.
  pub validate_accepts :
      (adr run_id : String) (has_verifier : Bool) (ss : List (DagNodeSpec A))
      (rs : List (NodeRecord A))
      → validate adr run_id has_verifier ss ≡ inr rs
      → (specs rs ≡ ss) × AllPending rs × ((rank : String → ℕ) × Ranked rank (specs rs) (specs rs))
  unfolding validate check_graph
  validate_accepts adr run_id has_verifier ss rs h =
      let b = build-Built [] ss rs (ground arith) in
      let (rank, k) =
        assert_acyclic_sound ss b.distinct (no_missing-AllKnown ss ss (ground arith))
          (ground arith) in
      (
        b.same_specs,
        b.pending_all,
        (rank, subst (λ (ns : List (DagNodeSpec A)). Ranked rank ns ns) (sym b.same_specs) k),
      )

  pub validated-Distinct :
      (adr run_id : String) (has_verifier : Bool) (ss : List (DagNodeSpec A))
      (rs : List (NodeRecord A))
      → validate adr run_id has_verifier ss ≡ inr rs
      → Distinct (ids (specs rs))
  unfolding validate check_graph
  validated-Distinct adr run_id has_verifier ss rs h =
      let b = build-Built [] ss rs (ground arith) in
      subst (λ (ns : List (DagNodeSpec A)). Distinct (ids ns)) (sym b.same_specs) b.distinct
