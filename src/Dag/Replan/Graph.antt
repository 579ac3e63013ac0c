-- ===== src/Dag/Replan/Graph.antt =====
-- A replan that validateReplan lets pass leaves a graph without cycles, once it is spliced in.
use agent_sdk.Dag.Records.{specs, has_id}
use agent_sdk.Common.{
  ◌++◌, ◌≡◌, if◌then◌else◌, ◌∷◌, none, str_eq, ap, str_eq-cases, ◌≤◌, elem, All, arith, some, inl,
  true, Option-cases, [], inr, false, subst, refl, sym, eq_iff,
}
use agent_sdk.Dag.{DagNodeSpec, NodeRecord, String, List}
use agent_sdk.Dag.Validate.{ids}
use agent_sdk.Dag.Validate.Acyclic.{AllKnown}
use agent_sdk.Dag.Validate.Rank.{has_id-ids}
use agent_sdk.Dag.Replan.{
  bad_dep, check_ids, check_collisions, check_deps, check_reuse, without, last_node, reuse_record,
  fresh_records, count, ◌++◌,
}

module _ {A : Type 0} where
  pub count-without :
      (id k : String) (ss : List (DagNodeSpec A))
      → count k (ids (without id ss)) ≡ (if str_eq id k then 0 else count k (ids ss))
  count-without id k [] = ground arith
  count-without id k (s ∷ ss) = elim (str_eq-cases s.id id) [
    | inl (p, e, e') ↦ ground (arith, count-without id k ss, ap (λ (y : String). str_eq y k) p)
    | inr (p, e, e') ↦ elim (str_eq-cases s.id k) [
      | inl (q, y, y') ↦ ground (arith, count-without id k ss, ap (λ (z : String). str_eq id z) q)
      | inr (q, y, y') ↦ ground (arith, count-without id k ss)
    ]
  ]

  pub ids-append : (ss ts : List (DagNodeSpec A)) → ids (ss ++ ts) ≡ ids ss ++ ids ts
  ids-append [] ts = refl
  ids-append (s ∷ ss) ts = ap (λ (l : List String). s.id ∷ l) (ids-append ss ts)

  pub specs-append : (rs ts : List (NodeRecord A)) → specs (rs ++ ts) ≡ specs rs ++ specs ts
  specs-append [] ts = refl
  specs-append (r ∷ rs) ts = ap (λ (l : List (DagNodeSpec A)). r.spec ∷ l) (specs-append rs ts)

  pub specs-fresh_records : (ss : List (DagNodeSpec A)) → specs (fresh_records ss) ≡ ss
  specs-fresh_records [] = refl
  specs-fresh_records (s ∷ ss) = ap (λ (l : List (DagNodeSpec A)). s ∷ l) (specs-fresh_records ss)

  pub ids-reuse_record :
      (id : String) (last : DagNodeSpec A) (rs : List (NodeRecord A))
      → last.id ≡ id
      → ids (specs (reuse_record id last rs)) ≡ ids (specs rs)
  unfolding reuse_record
  ids-reuse_record id last [] p = refl
  ids-reuse_record id last (r ∷ rs) p = elim (str_eq-cases r.spec.id id) [
    | inl (q, e, e') ↦ rw e (cc (ids-reuse_record id last rs p, q, p))
    | inr (q, e, e') ↦ rw e (cc (ids-reuse_record id last rs p))
  ]

  pub check_ids-count :
      (seen : List String) (ss : List (DagNodeSpec A))
      → check_ids seen ss ≡ none
      → (k : String) → (count k (ids ss) ≤ 1) × (elem k seen ≡ true → count k (ids ss) ≡ 0)
  unfolding check_ids
  check_ids-count seen [] h k = (omega arith, λ m. refl)
  check_ids-count seen (s ∷ ss) h k =
      let ih = check_ids-count (s.id ∷ seen) ss (ground arith) k in
      elim (str_eq-cases s.id k) [
        | inl (p, e, e') ↦
            (let fresh : elem k seen ≡ false =
                subst (λ (y : String). elem y seen ≡ false) p (ground arith) in
              (ground (arith, ih.1), λ m. absurd (cc (m, fresh))))
        | inr (p, e, e') ↦ (ground (arith, ih.0), λ m. ground (arith, ih.1))
      ]

  pub check_collisions-count :
      (known : List String) (ss : List (DagNodeSpec A)) (k : String)
      → check_collisions known ss ≡ none
      → elem k known ≡ true
      → count k (ids ss) ≡ 0
  unfolding check_collisions
  check_collisions-count known [] k h m = refl
  check_collisions-count known (s ∷ ss) k h m = elim (str_eq-cases s.id k) [
    | inl (p, e, e') ↦
        (let known_too : elem s.id known ≡ true =
            subst (λ (y : String). elem y known ≡ true) (sym p) m in
          absurd (ground arith))
    | inr (p, e, e') ↦ ground (arith, check_collisions-count known ss k)
  ]

  bad_dep-All :
      (ns : List (DagNodeSpec A)) (id : String) (ds : List String)
      → bad_dep (ids ns) id ds ≡ none
      → All (λ (d : String). has_id d ns ≡ true) ds
  unfolding bad_dep
  bad_dep-All ns id [] h = tt
  bad_dep-All ns id (d ∷ ds) h =
      (ground (arith, has_id-ids d ns), bad_dep-All ns id ds (ground arith))

  pub check_deps-AllKnown :
      (ns l : List (DagNodeSpec A)) → check_deps (ids ns) l ≡ none → AllKnown ns l
  unfolding check_deps
  check_deps-AllKnown ns [] h = tt
  check_deps-AllKnown ns (s ∷ l) h =
      (bad_dep-All ns s.id s.depends_on (ground arith), check_deps-AllKnown ns l (ground arith))

  -- What passes check_reuse: one node has the failed id, and it is the last.
  pub check_reuse_last :
      (id : String) (returned : List (DagNodeSpec A))
      → check_reuse id returned ≡ none
      → (count id (ids returned) ≡ 1)
        × ((last : DagNodeSpec A) × (last_node returned ≡ some last) × (last.id ≡ id))
  unfolding check_reuse
  check_reuse_last id returned h = elim (Option-cases (last_node returned)) [
    | inl n ↦ absurd (ground arith)
    | inr (last, e) ↦ (ground arith, (last, e, (eq_iff last.id id).0 (ground arith)))
  ]
