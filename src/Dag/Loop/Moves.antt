-- ===== src/Dag/Loop/Moves.antt =====
-- The frontier's part of a turn is never idle: with nothing in flight it dispatches a node or ends the loop.
use agent_sdk.Dag.Loop.{dispatch, advance, any_ready, below_limit, World, NodeRecord, is_ready}
use agent_sdk.Common.{
  Option, ℕ, List, ◌≡◌, true, ◌≤◌, some, arith, ◌<◌, ◌⊎◌, ◌∷◌, Bool-cases, none, inl, refl, ◌&&◌,
  inr, if◌then◌else◌, [], suc,
}

below_limit_zero : (limit : Option ℕ) → below_limit limit 0 ≡ true
below_limit_zero none = refl
below_limit_zero (some limit) = ground arith

module _ {A : Type 0} where
  dispatch_grows :
      (limit : Option ℕ) (rs : List (NodeRecord A)) (n : ℕ) (left : List (NodeRecord A))
      → n ≤ (dispatch limit rs n left).1
  unfolding dispatch
  dispatch_grows limit rs n [] = omega arith
  dispatch_grows limit rs n (r ∷ left) =
      let go = is_ready rs r && below_limit limit n in
      ground (arith, dispatch_grows limit rs (if go then suc n else n) left)

  dispatch_starts :
      (limit : Option ℕ) (rs left : List (NodeRecord A))
      → any_ready rs left ≡ true
      → 0 < (dispatch limit rs 0 left).1
  unfolding dispatch any_ready
  dispatch_starts limit rs [] h = absurd cc
  dispatch_starts limit rs (r ∷ left) h = elim (Bool-cases (is_ready rs r)) [
    | inl e ↦ rw (e, below_limit_zero limit) (omega (arith, dispatch_grows limit rs 1 left))
    | inr e ↦ rw e (dispatch_starts limit rs left (ground arith))
  ]

  pub advance_moves :
      (limit : Option ℕ) (w : World A)
      → w.in_flight ≡ 0
      → let u = advance limit w in (u.stopped ≡ true) ⊎ (0 < u.in_flight)
  unfolding advance
  advance_moves limit w idle = elim (Bool-cases (any_ready w.records w.records)) [
    | inl e ↦ rw (e, idle) (inr (dispatch_starts limit w.records w.records e))
    | inr e ↦ rw (e, idle) (inl refl)
  ]
