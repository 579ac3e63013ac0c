-- ===== src/Dag/Replanning/Splicing.antt =====
-- What a splice does to the records of a run: the failed record and the fresh ones are pending, and
-- nothing that is done is lost.
use agent_sdk.Dag.Validate.{ids, new_record}
use agent_sdk.Dag.Loop.Upstream.{UpstreamDone}
use agent_sdk.Dag.Replan.Splice.{Fits}
use agent_sdk.Dag.Loop.Slots.{count_running, count_running-append}
use agent_sdk.Dag.{NodeRecord, DagNodeSpec, settled, failed}
use agent_sdk.Dag.Records.{
  is_done_in, status_of, specs, is_done_in-cons, is_done_in-nil, all_done, status_of-cons,
}
use agent_sdk.Dag.Replan.{reuse_record, fresh_records, splice_replan, without}
use agent_sdk.Common.{
  String, List, ◌≡◌, some, true, false, ◌∷◌, ◌++◌, arith, [], refl, elem, Distinct, ◌≢◌, Bool-cases,
  str_eq-cases, subst, inl, str_eq, sym, inr, ap, ◌∙◌, eq_iff,
}

module _ {A : Type 0} where
  -- The record of the id is failed: what the loop knows of the node that the replanner was asked about.
  abbrev pub FailedAt : String → List (NodeRecord A) → Type 0
  FailedAt id rs = status_of id rs ≡ some (settled failed)

  reuse_absent :
      (id : String) (last : DagNodeSpec A) (rs : List (NodeRecord A))
      → elem id (ids (specs rs)) ≡ false
      → reuse_record id last rs ≡ rs
  unfolding reuse_record
  reuse_absent id last [] h = refl
  reuse_absent id last (r ∷ rs) h = ground (arith, reuse_absent id last rs)

  pub count_running-reuse_record :
      (id : String) (last : DagNodeSpec A) (rs : List (NodeRecord A))
      → Distinct (ids (specs rs))
      → FailedAt id rs
      → count_running (reuse_record id last rs) ≡ count_running rs
  unfolding reuse_record
  count_running-reuse_record id last [] d f = refl
  count_running-reuse_record id last (r ∷ rs) d f = elim (str_eq-cases r.spec.id id) [
    | inl (p, e, e') ↦
        (let gone : elem id (ids (specs rs)) ≡ false =
            subst (λ (x : String). elem x (ids (specs rs)) ≡ false) p d.0 in
          rw (e, reuse_absent id last rs gone) (ground (arith, status_of-cons r rs id)))
    | inr (p, e, e') ↦
        ground (arith, status_of-cons r rs id, count_running-reuse_record id last rs d.1)
  ]

  count_running-fresh_records : (ss : List (DagNodeSpec A)) → count_running (fresh_records ss) ≡ 0
  count_running-fresh_records [] = refl
  count_running-fresh_records (s ∷ ss) = omega (arith, count_running-fresh_records ss)

  is_done_in-reuse_record :
      (id d : String) (last : DagNodeSpec A) (rs : List (NodeRecord A))
      → last.id ≡ id
      → id ≢ d
      → is_done_in (reuse_record id last rs) d ≡ is_done_in rs d
  unfolding reuse_record
  is_done_in-reuse_record id d last [] p ne = refl
  is_done_in-reuse_record id d last (r ∷ rs) p ne = elim (str_eq-cases r.spec.id id) [
    | inl (q, e, e') ↦ rw e (
        ground (
          arith,
          is_done_in-cons r rs d,
          is_done_in-cons (new_record last) (reuse_record id last rs) d,
          is_done_in-reuse_record id d last rs p ne,
          ap (λ (x : String). str_eq x d) p,
          ap (λ (x : String). str_eq x d) q,
          (eq_iff id d).0,
        ))
    | inr (q, e, e') ↦ rw e (
        ground (
          arith,
          is_done_in-cons r rs d,
          is_done_in-cons r (reuse_record id last rs) d,
          is_done_in-reuse_record id d last rs p ne,
        ))
  ]

  is_done_in-append :
      (rs ts : List (NodeRecord A)) (d : String)
      → is_done_in rs d ≡ true
      → is_done_in (rs ++ ts) d ≡ true
  is_done_in-append [] ts d h = absurd (ground (arith, is_done_in-nil A d))
  is_done_in-append (r ∷ rs) ts d h =
      ground
        (arith, is_done_in-cons r rs d, is_done_in-cons r (rs ++ ts) d, is_done_in-append rs ts d)

  failed_not_done :
      (id : String) (rs : List (NodeRecord A)) → FailedAt id rs → is_done_in rs id ≡ false
  unfolding is_done_in
  failed_not_done id rs f = rw (f, is_done_in)

  all_done-of :
      (rs ts : List (NodeRecord A)) (ds : List String)
      → ((d : String) → is_done_in rs d ≡ true → is_done_in ts d ≡ true)
      → all_done rs ds ≡ true
      → all_done ts ds ≡ true
  unfolding all_done
  all_done-of rs ts [] keep h = refl
  all_done-of rs ts (d ∷ ds) keep h = ground (arith, keep d, all_done-of rs ts ds keep)

  UpstreamDone-append :
      (rs l m : List (NodeRecord A))
      → UpstreamDone rs l
      → UpstreamDone rs m
      → UpstreamDone rs (l ++ m)
  UpstreamDone-append rs [] m u v = v
  UpstreamDone-append rs (r ∷ l) m u v = (u.0, UpstreamDone-append rs l m u.1 v)

  UpstreamDone-fresh_records :
      (rs : List (NodeRecord A)) (ss : List (DagNodeSpec A)) → UpstreamDone rs (fresh_records ss)
  UpstreamDone-fresh_records rs [] = tt
  UpstreamDone-fresh_records rs (s ∷ ss) = (λ h. absurd cc, UpstreamDone-fresh_records rs ss)

  UpstreamDone-reuse_record :
      (id : String) (last : DagNodeSpec A) (rs ts l : List (NodeRecord A))
      → ((d : String) → is_done_in rs d ≡ true → is_done_in ts d ≡ true)
      → UpstreamDone rs l
      → UpstreamDone ts (reuse_record id last l)
  unfolding reuse_record
  UpstreamDone-reuse_record id last rs ts [] keep u = tt
  UpstreamDone-reuse_record id last rs ts (r ∷ l) keep u = elim (Bool-cases (str_eq r.spec.id id)) [
    | inl e ↦ rw e (λ h. absurd cc, UpstreamDone-reuse_record id last rs ts l keep u.1)
    | inr e ↦ rw e (
      λ h. all_done-of rs ts r.spec.depends_on keep (u.0 h),
      UpstreamDone-reuse_record id last rs ts l keep u.1,
    )
  ]

  -- What the splice leaves: the reused record and the fresh ones.
  abbrev spliced :
      String → DagNodeSpec A → List (DagNodeSpec A) → List (NodeRecord A) → List (NodeRecord A)
  spliced id last returned rs = reuse_record id last rs ++ fresh_records (without id returned)

  splice_replan-spliced :
      (id : String) (returned : List (DagNodeSpec A)) (rs : List (NodeRecord A))
      (v : Fits id returned (specs rs))
      → splice_replan id returned rs ≡ spliced id v.last returned rs
  unfolding splice_replan
  splice_replan-spliced id returned rs v = rw (v.is_last, splice_replan)

  is_done_in-spliced :
      (id : String) (last : DagNodeSpec A) (returned : List (DagNodeSpec A))
      (rs : List (NodeRecord A))
      → last.id ≡ id
      → FailedAt id rs
      → (d : String) → is_done_in rs d ≡ true
      → is_done_in (spliced id last returned rs) d ≡ true
  is_done_in-spliced id last returned rs p f d h = elim (str_eq-cases id d) [
    | inl (q, e, e') ↦ absurd (
        let no : is_done_in rs d ≡ false =
          subst (λ (x : String). is_done_in rs x ≡ false) q (failed_not_done id rs f) in
        cc)
    | inr (q, e, e') ↦
        is_done_in-append (reuse_record id last rs) (fresh_records (without id returned)) d
          (is_done_in-reuse_record id d last rs p q ∙ h)
  ]

  pub UpstreamDone-splice_replan :
      (id : String) (returned : List (DagNodeSpec A)) (rs : List (NodeRecord A))
      → Fits id returned (specs rs)
      → FailedAt id rs
      → UpstreamDone rs rs
      → let after = splice_replan id returned rs in UpstreamDone after after
  UpstreamDone-splice_replan id returned rs v f u =
      let after = spliced id v.last returned rs in
      subst (λ (l : List (NodeRecord A)). UpstreamDone l l)
        (sym (splice_replan-spliced id returned rs v))
        (UpstreamDone-append after (reuse_record id v.last rs) (fresh_records (without id returned))
          (UpstreamDone-reuse_record id v.last rs after rs
            (is_done_in-spliced id v.last returned rs v.same_id f) u)
          (UpstreamDone-fresh_records after (without id returned)))

  pub count_running-splice_replan :
      (id : String) (returned : List (DagNodeSpec A)) (rs : List (NodeRecord A))
      → Fits id returned (specs rs)
      → Distinct (ids (specs rs))
      → FailedAt id rs
      → count_running (splice_replan id returned rs) ≡ count_running rs
  count_running-splice_replan id returned rs v d f = rw (splice_replan-spliced id returned rs v) (
      omega (
        arith,
        count_running-append (reuse_record id v.last rs) (fresh_records (without id returned)),
        count_running-reuse_record id v.last rs d f,
        count_running-fresh_records (without id returned),
      ))
