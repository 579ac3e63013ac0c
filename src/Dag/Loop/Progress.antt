-- ===== src/Dag/Loop/Progress.antt =====
-- The fixpoint of `execute`: it is reached, and then no pending node has a failed or deferred
-- dependency.
use agent_sdk.Common.{
  ℕ, zero, suc, ◌+◌, ◌≤◌, ◌<◌, ◌≡◌, refl, true, false, List, [], ◌∷◌, ◌++◌, none, arith, length,
  Bool-cases, inl, inr, subst, ◌∙◌, ap,
}
use mathlib.Core.List.{append_assoc, append-nil}
use agent_sdk.Dag.{NodeRecord, Status, pending}
use agent_sdk.Dag.Loop.{is_pending, block, block_pass, block_all, first_blocking_dep}

abbrev one_pending : Status → ℕ
one_pending pending = 1
one_pending _ = 0

module _ {A : Type 0} where
  abbrev count_pending : List (NodeRecord A) → ℕ
  count_pending [] = 0
  count_pending (r ∷ rs) = one_pending r.status + count_pending rs

  count_pending-append :
      (rs ss : List (NodeRecord A)) → count_pending (rs ++ ss) ≡ count_pending rs + count_pending ss
  count_pending-append [] ss = omega arith
  count_pending-append (r ∷ rs) ss = omega (arith, count_pending-append rs ss)

  count_pending-le : (rs : List (NodeRecord A)) → count_pending rs ≤ length rs
  count_pending-le [] = omega arith
  count_pending-le (r ∷ rs) = ground (arith, count_pending-le rs)

  block_changes :
      (rs : List (NodeRecord A)) (r : NodeRecord A)
      → (block rs r).1 ≡ true
      → one_pending (block rs r).0.status + 1 ≡ one_pending r.status
  unfolding block
  block_changes rs r h = ground arith

  block_keeps :
      (rs : List (NodeRecord A)) (r : NodeRecord A) → (block rs r).1 ≡ false → (block rs r).0 ≡ r
  unfolding block
  block_keeps rs r h = ground arith

  block_pending_le :
      (rs : List (NodeRecord A)) (r : NodeRecord A)
      → one_pending (block rs r).0.status ≤ one_pending r.status
  unfolding block
  block_pending_le rs r = ground arith

  block_pass_le :
      (passed left : List (NodeRecord A))
      → count_pending (block_pass passed left).0 ≤ count_pending passed + count_pending left
  unfolding block_pass
  block_pass_le passed [] = omega arith
  block_pass_le passed (r ∷ left) =
      let r' = (block (passed ++ (r ∷ left)) r).0 in
      omega (
        arith,
        block_pass_le (passed ++ (r' ∷ [])) left,
        count_pending-append passed (r' ∷ []),
        block_pending_le (passed ++ (r ∷ left)) r,
      )

  block_pass_falls :
      (passed left : List (NodeRecord A))
      → (block_pass passed left).1 ≡ true
      → count_pending (block_pass passed left).0 < count_pending passed + count_pending left
  unfolding block_pass
  block_pass_falls passed [] h = cc
  block_pass_falls passed (r ∷ left) h =
      let r' = (block (passed ++ (r ∷ left)) r).0 in
      ground (
        arith,
        block_pass_le (passed ++ (r' ∷ [])) left,
        block_pass_falls (passed ++ (r' ∷ [])) left,
        count_pending-append passed (r' ∷ []),
        block_pending_le (passed ++ (r ∷ left)) r,
        block_changes (passed ++ (r ∷ left)) r,
      )

  block_pass_keeps :
      (passed left : List (NodeRecord A))
      → (block_pass passed left).1 ≡ false
      → (block_pass passed left).0 ≡ passed ++ left
  unfolding block_pass
  block_pass_keeps passed [] h = rw append-nil
  block_pass_keeps passed (r ∷ left) h =
      let r' = (block (passed ++ (r ∷ left)) r).0 in
      let same : (block (passed ++ (r ∷ left)) r).1 ≡ false = ground arith in
      let rest : (block_pass (passed ++ (r' ∷ [])) left).1 ≡ false = ground arith in
      block_pass_keeps (passed ++ (r' ∷ [])) left rest
      ∙ append_assoc passed (r' ∷ []) left
      ∙ ap (λ (x : NodeRecord A). passed ++ (x ∷ left)) (block_keeps (passed ++ (r ∷ left)) r same)

  -- With more fuel than there are records, the loop ends by its test: one more pass changes nothing.
  pub block_all_fixed :
      (fuel : ℕ) (rs : List (NodeRecord A))
      → count_pending rs < fuel
      → (block_pass [] (block_all fuel rs)).1 ≡ false
  unfolding block_all
  block_all_fixed zero rs h = absurd (omega arith)
  block_all_fixed (suc fuel) rs h = elim (Bool-cases (block_pass [] rs).1) [
    | inl e ↦
        rw (e, block_all)
          (block_all_fixed fuel (block_pass [] rs).0 (omega (arith, block_pass_falls [] rs e)))
    | inr e ↦ rw (e, block_all) (rw (block_pass_keeps [] rs e) e)
  ]

  pub block_all_fixed_here :
      (rs : List (NodeRecord A)) → (block_pass [] (block_all (suc (length rs)) rs)).1 ≡ false
  block_all_fixed_here rs =
      block_all_fixed (suc (length rs)) rs (omega (arith, count_pending-le rs))

  -- No pending record of `l` has a failed or deferred dependency in `rs`.
  abbrev pub NoneBlocked : List (NodeRecord A) → List (NodeRecord A) → Type 0
  NoneBlocked rs [] = Unit
  NoneBlocked rs (r ∷ l) =
      (is_pending r.status ≡ true → first_blocking_dep rs r.spec.depends_on ≡ none)
      × NoneBlocked rs l

  block_unchanged :
      (rs : List (NodeRecord A)) (r : NodeRecord A)
      → (block rs r).1 ≡ false
      → is_pending r.status ≡ true
      → first_blocking_dep rs r.spec.depends_on ≡ none
  unfolding block
  block_unchanged rs r h p = ground arith

  fixed_pass :
      (passed left rs : List (NodeRecord A))
      → passed ++ left ≡ rs
      → (block_pass passed left).1 ≡ false
      → NoneBlocked rs left
  unfolding block_pass
  fixed_pass passed [] rs e h = tt
  fixed_pass passed (r ∷ left) rs e h =
      let r' = (block (passed ++ (r ∷ left)) r).0 in
      let same : (block (passed ++ (r ∷ left)) r).1 ≡ false = ground arith in
      let rest : (block_pass (passed ++ (r' ∷ [])) left).1 ≡ false = ground arith in
      (
        λ p.
            subst (λ (x : List (NodeRecord A)). first_blocking_dep x r.spec.depends_on ≡ none) e
              (block_unchanged (passed ++ (r ∷ left)) r same p),
        fixed_pass (passed ++ (r' ∷ [])) left rs
            (append_assoc passed (r' ∷ []) left
              ∙ ap (λ (x : NodeRecord A). passed ++ (x ∷ left))
                  (block_keeps (passed ++ (r ∷ left)) r same)
              ∙ e)
            rest,
      )

  -- After the fixpoint, no pending node has a failed or deferred dependency: with one pass more
  -- than there are records, the loop has ended by its test.
  pub block_all-NoneBlocked :
      (rs : List (NodeRecord A)) → let out = block_all (suc (length rs)) rs in NoneBlocked out out
  block_all-NoneBlocked rs = fixed_pass [] _ _ refl (block_all_fixed_here rs)
