-- ===== src/Dag/Loop/Evolution.antt =====
-- How the passes of a turn change the records: place by place, and never a record that is done.
use mathlib.Core.List.{append_assoc, append-nil}
use agent_sdk.Common.{
  ℕ, zero, suc, ◌≡◌, refl, ◌∙◌, ◌⊎◌, inl, inr, Bool, true, false, ◌&&◌, List, [], ◌∷◌, ◌++◌, Option,
  none, some, arith, Pointwise, Bool-cases, if◌then◌else◌,
}
use agent_sdk.Dag.{done, Status, running, settled, Reason, NodeRecord}
use agent_sdk.Dag.Records.{all_done}
use agent_sdk.Dag.Loop.{
  is_pending, below_limit, defer_for, defer_pending, defer, first_blocking_dep, block, block_pass,
  block_all, is_ready, dispatch,
}

-- A node that was dispatched, and has not come back unfinished.
abbrev pub is_active : Status → Bool
is_active running = true
is_active (settled done) = true
is_active _ = false

module _ {A : Type 0} where
  -- No pass but a dispatch makes a record active.
  pub record Quiet (r r' : NodeRecord A) : Type 0 where
    pub same_spec : r'.spec ≡ r.spec
    pub done_kept : r.status ≡ settled done → r'.status ≡ settled done
    pub active_kept : is_active r'.status ≡ true → is_active r.status ≡ true

  -- A record that becomes active has all its dependencies done in `rs`.
  pub record Evolves (rs : List (NodeRecord A)) (r r' : NodeRecord A) : Type 0 where
    pub same_spec : r'.spec ≡ r.spec
    pub done_kept : r.status ≡ settled done → r'.status ≡ settled done
    pub active_kept :
        is_active r'.status ≡ true
        → (is_active r.status ≡ true) ⊎ (all_done rs r.spec.depends_on ≡ true)

  pub Quiet-refl : (r : NodeRecord A) → Quiet r r
  Quiet-refl r = record { same_spec = refl; done_kept = λ h. h; active_kept = λ h. h }

  pub Quiet-trans : (r s t : NodeRecord A) → Quiet r s → Quiet s t → Quiet r t
  Quiet-trans r s t p q = record {
    same_spec = q.same_spec ∙ p.same_spec;
    done_kept = λ h. q.done_kept (p.done_kept h);
    active_kept = λ h. p.active_kept (q.active_kept h);
  }

  pub all-Quiet-refl : (rs : List (NodeRecord A)) → Pointwise Quiet rs rs
  all-Quiet-refl [] = tt
  all-Quiet-refl (r ∷ rs) = (Quiet-refl r, all-Quiet-refl rs)

  pub all-Quiet-trans :
      (rs ss ts : List (NodeRecord A))
      → Pointwise Quiet rs ss
      → Pointwise Quiet ss ts
      → Pointwise Quiet rs ts
  all-Quiet-trans [] [] [] p q = tt
  all-Quiet-trans (r ∷ rs) (s ∷ ss) (t ∷ ts) p q =
      (Quiet-trans r s t p.0 q.0, all-Quiet-trans rs ss ts p.1 q.1)
  all-Quiet-trans [] (s ∷ ss) ts p q = absurd p
  all-Quiet-trans (r ∷ rs) [] ts p q = absurd p
  all-Quiet-trans [] [] (t ∷ ts) p q = absurd q
  all-Quiet-trans (r ∷ rs) (s ∷ ss) [] p q = absurd q

  -- A change at one place.
  pub all-Quiet-at :
      (before after : List (NodeRecord A)) (r r' : NodeRecord A)
      → Quiet r r'
      → Pointwise Quiet (before ++ (r ∷ after)) (before ++ (r' ∷ after))
  all-Quiet-at [] after r r' q = (q, all-Quiet-refl after)
  all-Quiet-at (b ∷ before) after r r' q = (Quiet-refl b, all-Quiet-at before after r r' q)

  pub all-Evolves :
      (rs ss ts : List (NodeRecord A)) → Pointwise Quiet ss ts → Pointwise (Evolves rs) ss ts
  all-Evolves rs [] [] q = tt
  all-Evolves rs (s ∷ ss) (t ∷ ts) q = (
    record {
      same_spec = q.0.same_spec;
      done_kept = q.0.done_kept;
      active_kept = λ h. inl (q.0.active_kept h);
    },
    all-Evolves rs ss ts q.1,
  )
  all-Evolves rs [] (t ∷ ts) q = absurd q
  all-Evolves rs (s ∷ ss) [] q = absurd q

  defer-Quiet :
      (why : Reason) (r : NodeRecord A) → is_pending r.status ≡ true → Quiet r (defer why r)
  unfolding defer
  defer-Quiet why r h = record {
    same_spec = refl;
    done_kept = λ e. ground arith;
    active_kept = λ e. cc;
  }

  pub defer_pending-Quiet :
      (why : Reason) (rs : List (NodeRecord A)) → Pointwise Quiet rs (defer_pending why rs)
  unfolding defer_pending
  defer_pending-Quiet why [] = tt
  defer_pending-Quiet why (r ∷ rs) = elim (Bool-cases (is_pending r.status)) [
    | inl e ↦ rw e (defer-Quiet why r e, defer_pending-Quiet why rs)
    | inr e ↦ rw e (Quiet-refl r, defer_pending-Quiet why rs)
  ]

  defer_for-Quiet :
      (r : NodeRecord A) (why : Option Reason)
      → is_pending r.status ≡ true
      → Quiet r (defer_for r why).0
  unfolding defer_for
  defer_for-Quiet r none h = Quiet-refl r
  defer_for-Quiet r (some why) h = defer-Quiet why r h

  block-Quiet : (rs : List (NodeRecord A)) (r : NodeRecord A) → Quiet r (block rs r).0
  unfolding block
  block-Quiet rs r = elim (Bool-cases (is_pending r.status)) [
    | inr e ↦ rw e (Quiet-refl r)
    | inl e ↦ rw e (defer_for-Quiet r (first_blocking_dep rs r.spec.depends_on) e)
  ]

  block_pass-Quiet :
      (passed left : List (NodeRecord A))
      → Pointwise Quiet (passed ++ left) (block_pass passed left).0
  unfolding block_pass
  block_pass-Quiet passed [] = rw append-nil (all-Quiet-refl passed)
  block_pass-Quiet passed (r ∷ left) =
      let r' = (block (passed ++ (r ∷ left)) r).0 in
      let here = all-Quiet-at passed left r r' (block-Quiet (passed ++ (r ∷ left)) r) in
      let rest = block_pass-Quiet (passed ++ (r' ∷ [])) left in
      all-Quiet-trans _ (passed ++ (r' ∷ left)) _ here (rw append_assoc at rest)

  pub block_all-Quiet :
      (fuel : ℕ) (rs : List (NodeRecord A)) → Pointwise Quiet rs (block_all fuel rs)
  unfolding block_all
  block_all-Quiet zero rs = all-Quiet-refl rs
  block_all-Quiet (suc fuel) rs = elim (Bool-cases (block_pass [] rs).1) [
    | inl e ↦
        rw (e, block_all)
          (all-Quiet-trans rs (block_pass [] rs).0 _ (block_pass-Quiet [] rs)
            (block_all-Quiet fuel (block_pass [] rs).0))
    | inr e ↦ rw (e, block_all) (block_pass-Quiet [] rs)
  ]

  dispatched-Evolves :
      (rs : List (NodeRecord A)) (r : NodeRecord A) (room : Bool)
      → Evolves rs r (if is_ready rs r && room then record r { status = running } else r)
  unfolding is_ready
  dispatched-Evolves rs r room = elim (Bool-cases (is_ready rs r && room)) [
    | inl e ↦ rw e (record {
      same_spec = refl;
      done_kept = λ h. ground arith;
      active_kept = λ h. inr (ground arith);
    })
    | inr e ↦ rw e (record { same_spec = refl; done_kept = λ h. h; active_kept = λ h. inl h })
  ]

  pub dispatch-Evolves :
      (limit : Option ℕ) (rs : List (NodeRecord A)) (n : ℕ) (left : List (NodeRecord A))
      → Pointwise (Evolves rs) left (dispatch limit rs n left).0
  unfolding dispatch
  dispatch-Evolves limit rs n [] = tt
  dispatch-Evolves limit rs n (r ∷ left) = (
    dispatched-Evolves rs r (below_limit limit n),
    dispatch-Evolves limit rs (if is_ready rs r && below_limit limit n then suc n else n) left,
  )
