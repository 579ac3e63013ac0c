-- ===== src/Dag/Replan/Splice.antt =====
-- The graph after spliceReplan.
use agent_sdk.Dag.Replan.Ranks.{
  Ranked-split, Ranked-mono, Ranked-append, Ranked-reuse_record, Below-last, Ranked-without,
}
use agent_sdk.Common.{
  ◌++◌, ◌≡◌, true, some, none, [], str_eq, subst, count, arith, inl, ◌≤◌, inr, ◌≢◌, ◌<◌,
  elem_of_positive, ◌+◌, if◌then◌else◌, Distinct, str_eq-cases, count-append, elem, sym,
  Distinct-of_count, count-le_one, ◌∙◌, ap, count_of_elem,
}
use agent_sdk.Dag.Records.{has_id, specs}
use agent_sdk.Dag.{DagNodeSpec, NodeRecord, String, ℕ, List}
use agent_sdk.Dag.Validate.{ids, assert_acyclic}
use agent_sdk.Dag.Validate.Acyclic.{AllKnown, assert_acyclic_sound}
use agent_sdk.Dag.Validate.Rank.{has_id-ids}
use agent_sdk.Dag.Loop.Settling.{Ranked}
use agent_sdk.Dag.Replan.{
  combined, without, last_node, validate_replan, splice_replan, reuse_record, fresh_records, ◌++◌,
}
use agent_sdk.Dag.Replan.Graph.{
  count-without, ids-append, specs-append, specs-fresh_records, ids-reuse_record, check_ids-count,
  check_collisions-count, check_deps-AllKnown, check_reuse_last,
}

module _ {A : Type 0} where
  -- What a replan that passes and the graph it is spliced into have to do with each other.
  pub record Fits (id : String) (returned ss : List (DagNodeSpec A)) : Type 0 where
    pub last : DagNodeSpec A
    pub is_last : last_node returned ≡ some last
    pub same_id : last.id ≡ id
    reused_once : count id (ids returned) ≡ 1
    once : (k : String) → count k (ids returned) ≤ 1
    apart : (k : String) → k ≢ id → 0 < count k (ids ss) → count k (ids returned) ≡ 0
    known : AllKnown (combined id returned ss) (combined id returned ss)
    acyclic : assert_acyclic (combined id returned ss) ≡ none

  pub replan-Fits :
      (id : String) (returned ss : List (DagNodeSpec A))
      → validate_replan id returned ss ≡ none
      → Fits id returned ss
  unfolding validate_replan
  replan-Fits id returned ss h =
      let all = combined id returned ss in
      let (one, (last, is_last, same_id)) = check_reuse_last id returned (ground arith) in
      record {
        last = last;
        is_last = is_last;
        same_id = same_id;
        reused_once = one;
        once = λ k. (check_ids-count [] returned (ground arith) k).0;
        apart = λ k ne c.
            (let away =
                check_collisions-count (ids ss) (without id returned) k (ground arith)
                  (elem_of_positive k (ids ss) c) in
              elim (str_eq-cases id k) [
                | inl (p, e, e') ↦ absurd (ne (sym p))
                | inr (p, e, e') ↦ ground (arith, away, count-without id k returned)
              ]);
        known = check_deps-AllKnown all all (ground arith);
        acyclic = ground arith;
      }

  specs-splice_replan :
      (id : String) (returned : List (DagNodeSpec A)) (rs : List (NodeRecord A))
      (v : Fits id returned (specs rs))
      → specs (splice_replan id returned rs)
        ≡ specs (reuse_record id v.last rs) ++ without id returned
  unfolding splice_replan
  specs-splice_replan id returned rs v =
      let fresh = without id returned in
      rw (v.is_last, splice_replan)
        (specs-append (reuse_record id v.last rs) (fresh_records fresh)
          ∙ ap (λ (l : List (DagNodeSpec A)). specs (reuse_record id v.last rs) ++ l)
              (specs-fresh_records fresh))

  -- How often an id occurs before and after the splice.
  count-splice_replan :
      (id k : String) (returned : List (DagNodeSpec A)) (rs : List (NodeRecord A))
      → Fits id returned (specs rs)
      → count k (ids (specs (splice_replan id returned rs)))
        ≡ count k (ids (specs rs)) + (if str_eq id k then 0 else count k (ids returned))
  count-splice_replan id k returned rs v =
      let fresh = without id returned in
      let reused = specs (reuse_record id v.last rs) in
      let at : count k (ids (specs (splice_replan id returned rs)))
          ≡ count k (ids reused ++ ids fresh) =
        ap (λ (l : List (DagNodeSpec A)). count k (ids l)) (specs-splice_replan id returned rs v)
        ∙ ap (count k) (ids-append reused fresh) in
      omega (
        arith,
        at,
        count-append k (ids reused) (ids fresh),
        ap (count k) (ids-reuse_record id v.last rs v.same_id),
        count-without id k returned,
      )

  count-combined :
      (id k : String) (returned ss : List (DagNodeSpec A))
      → count k (ids (combined id returned ss))
        ≡ (if str_eq id k then 0 else count k (ids ss)) + count k (ids returned)
  count-combined id k returned ss = ground (
    arith,
    ids-append (without id ss) returned,
    count-append k (ids (without id ss)) (ids returned),
    count-without id k ss,
  )

  once-combined :
      (id k : String) (returned ss : List (DagNodeSpec A))
      → Fits id returned ss
      → Distinct (ids ss)
      → count k (ids (combined id returned ss)) ≤ 1
  once-combined id k returned ss v d = elim (str_eq-cases id k) [
    | inl (p, e, e') ↦ ground (arith, count-combined id k returned ss, v.once k)
    | inr (p, e, e') ↦ ground (
      arith,
      count-combined id k returned ss,
      v.once k,
      v.apart k (λ q. p (sym q)),
      count-le_one k (ids ss) d,
    )
  ]

  Ranked-splice_replan :
      (rank : String → ℕ) (ns : List (DagNodeSpec A)) (id : String)
      (returned : List (DagNodeSpec A)) (rs : List (NodeRecord A))
      → Fits id returned (specs rs)
      → Ranked rank ns (combined id returned (specs rs))
      → Ranked rank ns (specs (splice_replan id returned rs))
  Ranked-splice_replan rank ns id returned rs v b =
      let (old, new) = Ranked-split rank ns (without id (specs rs)) returned b in
      subst (λ (l : List (DagNodeSpec A)). Ranked rank ns l)
        (sym (specs-splice_replan id returned rs v))
        (Ranked-append rank ns (specs (reuse_record id v.last rs)) (without id returned)
          (Ranked-reuse_record rank ns id v.last rs
            (Below-last rank ns returned v.last v.is_last new) old)
          (Ranked-without rank ns returned id new))

  -- From records with distinct ids, one of which is the failed node's: if the replan passes the
  -- checks, the graph after the splice has distinct ids, no missing dependency and no cycle.
  pub validate_replan_sound :
      (id : String) (returned : List (DagNodeSpec A)) (rs : List (NodeRecord A))
      → Distinct (ids (specs rs))
      → elem id (ids (specs rs)) ≡ true
      → validate_replan id returned (specs rs) ≡ none
      → let after = specs (splice_replan id returned rs) in
        Distinct (ids after) × ((rank : String → ℕ) × Ranked rank after after)
  validate_replan_sound id returned rs d m h =
      let v = replan-Fits id returned (specs rs) h in
      let all = combined id returned (specs rs) in
      let after = specs (splice_replan id returned rs) in
      let once : Distinct (ids all) =
        Distinct-of_count (ids all) (λ k. once-combined id k returned (specs rs) v d) in
      let (rank, ranked) = assert_acyclic_sound all once v.known v.acyclic in
      let counts : (k : String)
          → count k (ids after)
            ≡ count k (ids (specs rs)) + (if str_eq id k then 0 else count k (ids returned)) =
        λ k. count-splice_replan id k returned rs v in
      let kept : (k : String) → has_id k all ≡ true → has_id k after ≡ true = λ k y.
        let there : 0 < count k (ids all) =
          count_of_elem k (ids all) (sym (has_id-ids k all) ∙ y) in
        has_id-ids k after
        ∙ elem_of_positive k (ids after) (elim (str_eq-cases id k) [
          | inl (p, e, e') ↦
              (let failed =
                  count_of_elem k (ids (specs rs))
                    (subst (λ (x : String). elem x (ids (specs rs)) ≡ true) p m) in
                omega (arith, counts k, failed))
          | inr (p, e, e') ↦ ground (arith, counts k, count-combined id k returned (specs rs))
        ]) in
      (
        Distinct-of_count (ids after) (λ k. elim (str_eq-cases id k) [
          | inl (p, e, e') ↦ ground (arith, counts k, count-le_one k (ids (specs rs)) d)
          | inr (p, e, e') ↦ ground (
            arith,
            counts k,
            count-combined id k returned (specs rs),
            once-combined id k returned (specs rs) v d,
          )
        ]),
        (
          rank,
          Ranked-mono rank all after after kept
              (Ranked-splice_replan rank all id returned rs v ranked),
        ),
      )
