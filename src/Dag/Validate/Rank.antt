-- ===== src/Dag/Validate/Rank.antt =====
-- The order in which Kahn's algorithm places the nodes, as a rank that falls along dependencies,
-- and what such a rank says of the nodes.
use agent_sdk.Dag.Records.{has_id}
use agent_sdk.Dag.Validate.Degrees.{unplaced, waits, needs}
use agent_sdk.Common.{
  ◌≤◌, ◌<◌, count, ◌∷◌, length, ◌≡◌, if◌then◌else◌, arith, elem, str_eq, str_eq-cases, Bool-cases,
  suc, inl, ◌==◌, ltb, ap, eq_refl, ltb→lt, subst, inr, true, [], refl,
}
use agent_sdk.Dag.{DagNodeSpec, List, String, ℕ}
use agent_sdk.Dag.Validate.{ids}
use agent_sdk.Dag.Validate.Kahn.{Ordered}

-- The place of a key in a list, counted from the list's end, from 1 on; 0 if it is not there.
abbrev pub place : List String → String → ℕ
place [] k = 0
place (x ∷ xs) k = if str_eq x k then suc (length xs) else place xs k

place-le-length : (xs : List String) (k : String) → place xs k ≤ length xs
place-le-length [] k = omega arith
place-le-length (x ∷ xs) k = ground (arith, place-le-length xs k)

unplaced_none :
    (placed ds : List String) (d : String)
    → unplaced placed ds ≡ 0
    → 0 < count d ds
    → 0 < count d placed
unplaced_none placed [] d z h = absurd (omega arith)
unplaced_none placed (e ∷ ds) d z h = elim (str_eq-cases e d) [
  | inl (p, q, q') ↦ ground (arith, ap (λ (y : String). count y placed) p)
  | inr (p, q, q') ↦ ground (arith, unplaced_none placed ds d)
]

-- A positive number of unplaced dependencies has one of them.
unplaced_some :
    (placed ds : List String)
    → 0 < unplaced placed ds
    → (d : String) × (0 < count d ds) × (count d placed ≡ 0)
unplaced_some placed [] h = absurd (omega arith)
unplaced_some placed (d ∷ ds) h = elim (Bool-cases (count d placed == 0)) [
  | inl e ↦ (d, ground (arith, eq_refl d), ground arith)
  | inr e ↦ (let (c, p, q) = unplaced_some placed ds (ground arith) in (c, ground arith, q))
]

module _ {A : Type 0} where
  waits_none :
      (ss : List (DagNodeSpec A)) (placed : List String) (k d : String)
      → waits ss placed k ≡ 0
      → 0 < needs ss d k
      → 0 < count d placed
  waits_none [] placed k d z h = absurd (omega arith)
  waits_none (s ∷ ss) placed k d z h =
      ground (arith, waits_none ss placed k d, unplaced_none placed s.depends_on d)

  pub waits_some :
      (ss : List (DagNodeSpec A)) (placed : List String) (k : String)
      → 0 < waits ss placed k
      → (d : String) × (0 < needs ss d k) × (count d placed ≡ 0)
  waits_some [] placed k h = absurd (omega arith)
  waits_some (s ∷ ss) placed k h = elim (Bool-cases (ltb 0 (waits ss placed k))) [
    | inl e ↦ (let (d, p, q) = waits_some ss placed k (ltb→lt 0 _ e) in (d, omega arith, q))
    | inr e ↦
        (let own : str_eq s.id k ≡ true = ground arith in
          let (d, p, q) = unplaced_some placed s.depends_on (ground arith) in (d, ground arith, q))
  ]

  -- In an ordered list without repetition, all that a node depends on is before it.
  earlier :
      (ss : List (DagNodeSpec A)) (placed : List String) (k d : String)
      → Ordered ss placed
      → 0 < count k placed
      → 0 < needs ss d k
      → 0 < count d placed
  earlier ss [] k d o c n = absurd (omega arith)
  earlier ss (x ∷ placed) k d o c n = elim (str_eq-cases x k) [
    | inl (p, e, e') ↦
        (let idle : waits ss placed k ≡ 0 = subst (λ (y : String). waits ss placed y ≡ 0) p o.0 in
          ground (arith, waits_none ss placed k d idle n))
    | inr (p, e, e') ↦ ground (arith, earlier ss placed k d o.1)
  ]

  pub place_falls :
      (ss : List (DagNodeSpec A)) (placed : List String) (k d : String)
      → Ordered ss placed
      → ((y : String) → count y placed ≤ 1)
      → 0 < count k placed
      → 0 < needs ss d k
      → place placed d < place placed k
  place_falls ss [] k d o u c n = absurd (omega arith)
  place_falls ss (x ∷ placed) k d o u c n = elim (str_eq-cases x k) [
    | inl (p, e, e') ↦
        (let idle : waits ss placed k ≡ 0 = subst (λ (y : String). waits ss placed y ≡ 0) p o.0 in
          ground (arith, waits_none ss placed k d idle n, u d, place-le-length placed d))
    | inr (p, e, e') ↦
        (let below : count k placed ≡ count k (x ∷ placed) = ground arith in
          let c' : 0 < count k placed = omega (arith, below) in
          let once : (y : String) → count y placed ≤ 1 = λ y. ground (arith, u y) in
          ground
            (arith, earlier ss placed k d o.1 c' n, u d, place_falls ss placed k d o.1 once c' n))
  ]

  pub has_id-ids : (d : String) (ss : List (DagNodeSpec A)) → has_id d ss ≡ elem d (ids ss)
  has_id-ids d [] = refl
  has_id-ids d (s ∷ ss) = ground (arith, has_id-ids d ss)
