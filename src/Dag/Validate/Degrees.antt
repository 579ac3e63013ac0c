-- ===== src/Dag/Validate/Degrees.antt =====
-- What the degrees of Kahn's algorithm count: the dependencies that are not placed yet.
use agent_sdk.Common.{
  count, ◌∷◌, ◌≡◌, Distinct, if◌then◌else◌, ◌+◌, length, false, true, ◌==◌, str_eq-cases, arith,
  str_eq, suc, inl, update, inr, ◌++◌, count-append, refl, ap, subst,
}
use agent_sdk.Dag.{DagNodeSpec, List, String, ℕ}
use agent_sdk.Dag.Validate.{ids, indegrees, add_dependents, dependents, [], elem}

-- How many of the dependencies are not in `placed`, with their multiplicity.
abbrev pub unplaced : List String → List String → ℕ
unplaced placed [] = 0
unplaced placed (d ∷ ds) =
    if count d placed == 0 then suc (unplaced placed ds) else unplaced placed ds

unplaced-cons :
    (x : String) (placed ds : List String)
    → count x placed ≡ 0
    → unplaced (x ∷ placed) ds + count x ds ≡ unplaced placed ds
unplaced-cons x placed [] h = refl
unplaced-cons x placed (d ∷ ds) h = elim (str_eq-cases d x) [
  | inl (p, e, e') ↦
      ground (arith, unplaced-cons x placed ds h, ap (λ (y : String). count y placed) p)
  | inr (p, e, e') ↦ ground (arith, unplaced-cons x placed ds h)
]

unplaced-nil : (ds : List String) → unplaced [] ds ≡ length ds
unplaced-nil [] = refl
unplaced-nil (d ∷ ds) = ground (arith, unplaced-nil ds)

count-add_dependents :
    (id : String) (ds : List String) (m : String → List String) (x k : String)
    → count k (add_dependents id ds m x) ≡ count k (m x) + (if str_eq id k then count x ds else 0)
unfolding add_dependents
count-add_dependents id [] m x k = ground arith
count-add_dependents id (d ∷ ds) m x k = ground (
  arith,
  count-add_dependents id ds (update m d (m d ++ (id ∷ []))) x k,
  count-append k (m d) (id ∷ []),
  str_eq-cases d x,
)

module _ {A : Type 0} where
  -- Of all nodes with the id `k`: the dependencies that are not placed, and those that are `x`.
  abbrev pub waits : List (DagNodeSpec A) → List String → String → ℕ
  waits [] placed k = 0
  waits (s ∷ ss) placed k =
      (if str_eq s.id k then unplaced placed s.depends_on else 0) + waits ss placed k

  abbrev pub needs : List (DagNodeSpec A) → String → String → ℕ
  needs [] x k = 0
  needs (s ∷ ss) x k = (if str_eq s.id k then count x s.depends_on else 0) + needs ss x k

  pub waits-cons :
      (ss : List (DagNodeSpec A)) (x : String) (placed : List String) (k : String)
      → count x placed ≡ 0
      → waits ss (x ∷ placed) k + needs ss x k ≡ waits ss placed k
  waits-cons [] x placed k h = refl
  waits-cons (s ∷ ss) x placed k h =
      ground (arith, unplaced-cons x placed s.depends_on, waits-cons ss x placed k)

  pub waits_absent :
      (ss : List (DagNodeSpec A)) (placed : List String) (k : String)
      → elem k (ids ss) ≡ false
      → waits ss placed k ≡ 0
  waits_absent [] placed k h = refl
  waits_absent (s ∷ ss) placed k h = ground (arith, waits_absent ss placed k)

  pub indegrees-waits :
      (ss : List (DagNodeSpec A)) (f : String → ℕ) (k : String)
      → Distinct (ids ss)
      → (elem k (ids ss) ≡ true → f k ≡ 0)
      → indegrees ss f k ≡ f k + waits ss [] k
  unfolding indegrees
  indegrees-waits [] f k d h = omega arith
  indegrees-waits (s ∷ ss) f k d h = elim (str_eq-cases s.id k) [
    | inl (p, e, e') ↦
        (let absent : elem k (ids ss) ≡ false =
            subst (λ (y : String). elem y (ids ss) ≡ false) p d.0 in
          let ih = indegrees-waits ss (update f s.id (length s.depends_on)) k d.1 (λ t. cc) in
          ground (arith, ih, unplaced-nil s.depends_on))
    | inr (p, e, e') ↦
        (let ih =
            indegrees-waits ss (update f s.id (length s.depends_on)) k d.1 (λ t. ground arith) in
          ground (arith, ih))
  ]

  pub count-dependents :
      (ss : List (DagNodeSpec A)) (m : String → List String) (x k : String)
      → count k (dependents ss m x) ≡ count k (m x) + needs ss x k
  unfolding dependents
  count-dependents [] m x k = omega arith
  count-dependents (s ∷ ss) m x k = omega (
    arith,
    count-dependents ss (add_dependents s.id s.depends_on m) x k,
    count-add_dependents s.id s.depends_on m x k,
  )
