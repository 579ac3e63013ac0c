-- ===== src/Dag/Loop/Slots.antt =====
-- The slots of the loop: how many records run, and how many the limit lets run.
use agent_sdk.Common.{
  ℕ, zero, suc, ◌+◌, ◌≤◌, ◌≡◌, refl, ◌&&◌, List, [], ◌∷◌, ◌++◌, Option, none, some, arith, inl, inr,
  Bool-cases, if◌then◌else◌,
}
use agent_sdk.Dag.{Reason, NodeRecord}
use agent_sdk.Dag.Records.{one_running}
use agent_sdk.Dag.Loop.{
  below_limit, defer_pending, block, block_pass, block_all, is_ready, dispatch,
}

-- `maxConcurrency` is a bound only if it is positive.
abbrev pub WithinLimit : Option ℕ → ℕ → Type 0
WithinLimit none n = Unit
WithinLimit (some zero) n = Unit
WithinLimit (some (suc limit)) n = n ≤ suc limit

pub WithinLimit-down :
    (limit : Option ℕ) (n m : ℕ) → WithinLimit limit n → m ≤ n → WithinLimit limit m
WithinLimit-down none n m h le = tt
WithinLimit-down (some zero) n m h le = tt
WithinLimit-down (some (suc limit)) n m h le = omega arith

pub WithinLimit-zero : (limit : Option ℕ) → WithinLimit limit 0
WithinLimit-zero none = tt
WithinLimit-zero (some zero) = tt
WithinLimit-zero (some (suc limit)) = omega arith

module _ {A : Type 0} where
  abbrev pub count_running : List (NodeRecord A) → ℕ
  count_running [] = 0
  count_running (r ∷ rs) = one_running r.status + count_running rs

  pub count_running-append :
      (rs ss : List (NodeRecord A)) → count_running (rs ++ ss) ≡ count_running rs + count_running ss
  count_running-append [] ss = omega arith
  count_running-append (r ∷ rs) ss = omega (arith, count_running-append rs ss)

  pub count_running-defer_pending :
      (why : Reason) (rs : List (NodeRecord A))
      → count_running (defer_pending why rs) ≡ count_running rs
  unfolding defer_pending
  count_running-defer_pending why [] = refl
  count_running-defer_pending why (r ∷ rs) = ground (arith, count_running-defer_pending why rs)

  one_running-block :
      (rs : List (NodeRecord A)) (r : NodeRecord A)
      → one_running (block rs r).0.status ≡ one_running r.status
  unfolding block
  one_running-block rs r = ground arith

  count_running-block_pass :
      (passed left : List (NodeRecord A))
      → count_running (block_pass passed left).0 ≡ count_running passed + count_running left
  unfolding block_pass
  count_running-block_pass passed [] = omega arith
  count_running-block_pass passed (r ∷ left) =
      let r' = (block (passed ++ (r ∷ left)) r).0 in
      omega (
        arith,
        count_running-block_pass (passed ++ (r' ∷ [])) left,
        count_running-append passed (r' ∷ []),
        one_running-block (passed ++ (r ∷ left)) r,
      )

  pub count_running-block_all :
      (fuel : ℕ) (rs : List (NodeRecord A)) → count_running (block_all fuel rs) ≡ count_running rs
  unfolding block_all
  count_running-block_all zero rs = refl
  count_running-block_all (suc fuel) rs =
      ground
        (arith, count_running-block_pass [] rs, count_running-block_all fuel (block_pass [] rs).0)

  pub count_running-dispatch :
      (limit : Option ℕ) (rs : List (NodeRecord A)) (n : ℕ) (left : List (NodeRecord A))
      → count_running (dispatch limit rs n left).0 + n
        ≡ count_running left + (dispatch limit rs n left).1
  unfolding dispatch is_ready
  count_running-dispatch limit rs n [] = refl
  count_running-dispatch limit rs n (r ∷ left) =
      elim (Bool-cases (is_ready rs r && below_limit limit n)) [
        | inl e ↦ rw e (ground (arith, count_running-dispatch limit rs (suc n) left))
        | inr e ↦ rw e (ground (arith, count_running-dispatch limit rs n left))
      ]

  pub dispatch-WithinLimit :
      (limit : Option ℕ) (rs : List (NodeRecord A)) (n : ℕ) (left : List (NodeRecord A))
      → WithinLimit limit n
      → WithinLimit limit (dispatch limit rs n left).1
  unfolding dispatch
  dispatch-WithinLimit none rs n left h = tt
  dispatch-WithinLimit (some zero) rs n left h = tt
  dispatch-WithinLimit (some (suc limit)) rs n [] h = h
  dispatch-WithinLimit (some (suc limit)) rs n (r ∷ left) h =
      dispatch-WithinLimit (some (suc limit)) rs
        (if is_ready rs r && below_limit (some (suc limit)) n then suc n else n) left (ground arith)
