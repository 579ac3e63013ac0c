-- ===== src/Dag/Replanning/Awaiting.antt =====
-- The failed record while the loop waits for the replanner, and the reason that it is given.
use agent_sdk.Dag.Loop.Evolution.{Quiet, Quiet-refl}
use agent_sdk.Dag.Loop.Slots.{count_running}
use agent_sdk.Dag.Records.{status_of-nil, status_of-cons}
use agent_sdk.Dag.Replanning.Splicing.{FailedAt}
use agent_sdk.Dag.Validate.{ids}
use agent_sdk.Dag.Replanning.{specs, failed_to_replan, explain, is_failed}
use agent_sdk.Common.{
  List, String, Distinct, ◌≡◌, some, false, elem, true, ◌∷◌, ◌++◌, arith, Bool-cases, Pointwise,
  eq_iff, ◌&&◌, subst, [], not, ap, refl, inl, str_eq, inr, str_eq-cases,
}
use agent_sdk.Dag.{
  DagNodeSpec, NodeRecord, Status, running, Reason, settled, failed, pending, deferred, done,
}

is_failed→eq : (s : Status) → is_failed s ≡ true → s ≡ settled failed
is_failed→eq (settled failed) h = refl
is_failed→eq (settled done) h = cc
is_failed→eq (settled deferred) h = cc
is_failed→eq pending h = cc
is_failed→eq running h = cc

module _ {A : Type 0} where
  pub elem_of_failed :
      (id : String) (rs : List (NodeRecord A)) → FailedAt id rs → elem id (ids (specs rs)) ≡ true
  elem_of_failed id [] f = absurd cc (status_of-nil A id)
  elem_of_failed id (r ∷ rs) f = ground (arith, status_of-cons r rs id, elem_of_failed id rs)

  failed_to_replan-elem :
      (offered : List String) (rs : List (NodeRecord A)) (id : String)
      → failed_to_replan offered rs ≡ some id
      → elem id (ids (specs rs)) ≡ true
  unfolding failed_to_replan
  failed_to_replan-elem offered [] id h = absurd cc
  failed_to_replan-elem offered (r ∷ rs) id h =
      ground (arith, failed_to_replan-elem offered rs id, (eq_iff r.spec.id id).1)

  pub failed_to_replan-FailedAt :
      (offered : List String) (rs : List (NodeRecord A)) (id : String)
      → Distinct (ids (specs rs))
      → failed_to_replan offered rs ≡ some id
      → FailedAt id rs
  unfolding failed_to_replan
  failed_to_replan-FailedAt offered [] id d h = absurd cc
  failed_to_replan-FailedAt offered (r ∷ rs) id d h =
      elim (Bool-cases (is_failed r.status && not (elem r.spec.id offered))) [
        | inl e ↦
            (let p : r.spec.id ≡ id = ground arith in
              ground
                (arith, status_of-cons r rs id, (eq_iff r.spec.id id).1 p, is_failed→eq r.status))
        | inr e ↦
            (let rest : failed_to_replan offered rs ≡ some id = ground arith in
              let there = failed_to_replan-elem offered rs id rest in
              elim (str_eq-cases r.spec.id id) [
                | inl (p, y, y') ↦ absurd (
                    let gone : elem id (ids (specs rs)) ≡ false =
                      subst (λ (x : String). elem x (ids (specs rs)) ≡ false) p d.0 in
                    cc)
                | inr (p, y, y') ↦ ground (
                  arith,
                  status_of-cons r rs id,
                  failed_to_replan-FailedAt offered rs id d.1 rest,
                )
              ])
      ]

  pub FailedAt-settled :
      (id : String) (before after : List (NodeRecord A)) (r r' : NodeRecord A)
      → (r.status ≡ settled failed → r'.status ≡ settled failed)
      → r'.spec ≡ r.spec
      → FailedAt id (before ++ (r ∷ after))
      → FailedAt id (before ++ (r' ∷ after))
  FailedAt-settled id [] after r r' h p f = ground (
    arith,
    h,
    status_of-cons r after id,
    status_of-cons r' after id,
    ap (λ (x : DagNodeSpec A). str_eq x.id id) p,
  )
  FailedAt-settled id (b ∷ before) after r r' h p f = ground (
    arith,
    status_of-cons b (before ++ (r ∷ after)) id,
    status_of-cons b (before ++ (r' ∷ after)) id,
    FailedAt-settled id before after r r' h p,
  )

  pub explain-Quiet :
      (id : String) (why : Reason → Reason) (rs : List (NodeRecord A))
      → Pointwise Quiet rs (explain id why rs)
  unfolding explain
  explain-Quiet id why [] = tt
  explain-Quiet id why (r ∷ rs) = elim (Bool-cases (str_eq r.spec.id id)) [
    | inl e ↦ rw e (
      record { same_spec = refl; done_kept = λ h. h; active_kept = λ h. h },
      explain-Quiet id why rs,
    )
    | inr e ↦ rw e (Quiet-refl r, explain-Quiet id why rs)
  ]

  pub count_running-explain :
      (id : String) (why : Reason → Reason) (rs : List (NodeRecord A))
      → count_running (explain id why rs) ≡ count_running rs
  unfolding explain
  count_running-explain id why [] = refl
  count_running-explain id why (r ∷ rs) = ground (arith, count_running-explain id why rs)
