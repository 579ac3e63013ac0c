-- ===== src/Dag/Validate/Acyclic.antt =====
-- assertAcyclic passes exactly the graphs that have a rank which falls along dependencies.
use agent_sdk.Dag.Validate.Rank.{place, place_falls, waits_some, has_id-ids}
use agent_sdk.Dag.Validate.Degrees.{needs}
use agent_sdk.Dag.Records.{has_id}
use agent_sdk.Common.{
  Distinct, ◌≡◌, elem, All, ◌<◌, [], true, none, count, arith, ◌∷◌, length, zero, suc, str_eq-cases,
  eq_refl, Bool-cases, inl, ◌==◌, refl, ap, subst, ltb, inr, ltb→lt,
}
use agent_sdk.Dag.{DagNodeSpec, List, String, ℕ}
use agent_sdk.Dag.Validate.{ids, assert_acyclic}
use agent_sdk.Dag.Validate.Kahn.{Kahn, positives}
use agent_sdk.Dag.Validate.Drain.{run-Drained}
use agent_sdk.Dag.Loop.Settling.{Below, Ranked}

-- Every dependency is the id of a node.
abbrev pub AllKnown : {A : Type 0} → List (DagNodeSpec A) → List (DagNodeSpec A) → Type 0
AllKnown ns [] = Unit
AllKnown ns (s ∷ l) = All (λ (d : String). has_id d ns ≡ true) s.depends_on × AllKnown ns l

positives_none :
    (f : String → ℕ) (ks : List String) (k : String)
    → positives f ks ≡ 0
    → elem k ks ≡ true
    → f k ≡ 0
positives_none f [] k z h = absurd (ground arith)
positives_none f (x ∷ ks) k z h = elim (str_eq-cases x k) [
  | inl (p, e, e') ↦ ground (arith, ap f p)
  | inr (p, e, e') ↦ ground (arith, positives_none f ks k)
]

positives_zero :
    (f : String → ℕ) (ks : List String)
    → ((k : String) → elem k ks ≡ true → f k ≡ 0)
    → positives f ks ≡ 0
positives_zero f [] z = refl
positives_zero f (x ∷ ks) z =
    ground (arith, z x, eq_refl x, positives_zero f ks (λ k h. z k (ground arith)))

module _ {A : Type 0} where
  Below-of :
      (ns : List (DagNodeSpec A)) (rank : String → ℕ) (k : ℕ) (ds : List String)
      → All (λ (d : String). has_id d ns ≡ true) ds
      → ((d : String) → 0 < count d ds → rank d < k)
      → Below rank ns k ds
  Below-of ns rank k [] a f = tt
  Below-of ns rank k (d ∷ ds) a f =
      (a.0, f d (ground (arith, eq_refl d)), Below-of ns rank k ds a.1 (λ c h. f c (ground arith)))

  Ranked-of :
      (ns l : List (DagNodeSpec A)) (rank : String → ℕ)
      → AllKnown ns l
      → ((d k : String) → elem k (ids l) ≡ true → 0 < needs l d k → rank d < rank k)
      → Ranked rank ns l
  Ranked-of ns [] rank a f = tt
  Ranked-of ns (s ∷ l) rank a f = (
    Below-of ns rank (rank s.id) s.depends_on a.0
        (λ d h. f d s.id (ground (arith, eq_refl s.id)) (ground (arith, eq_refl s.id))),
    Ranked-of ns l rank a.1 (λ d k m h. f d k (ground arith) (ground arith)),
  )

  -- A graph with distinct ids and known dependencies that passes has a rank which falls along
  -- dependencies: it has no cycle.
  pub assert_acyclic_sound :
      (ss : List (DagNodeSpec A))
      → Distinct (ids ss)
      → AllKnown ss ss
      → assert_acyclic ss ≡ none
      → (rank : String → ℕ) × Ranked rank ss ss
  unfolding assert_acyclic
  assert_acyclic_sound ss d a h =
      let r = run-Drained ss d in
      let v = r.valid in
      let all : length r.placed ≡ length ss = ground (arith, r.returns) in
      (
        place r.placed,
        Ranked-of ss ss (place r.placed) a (λ c k m n.
            place_falls ss r.placed k c v.ordered (λ y. omega (arith, v.once y))
              (omega
                (arith, v.zeros k m (positives_none r.final (ids ss) k (omega (arith, v.total)) m)))
              n),
      )

  Below-needs :
      (ns : List (DagNodeSpec A)) (rank : String → ℕ) (k : ℕ) (ds : List String) (d : String)
      → Below rank ns k ds
      → 0 < count d ds
      → (has_id d ns ≡ true) × (rank d < k)
  Below-needs ns rank k [] d b h = absurd (omega arith)
  Below-needs ns rank k (c ∷ ds) d b h = elim (str_eq-cases c d) [
    | inl (p, e, e') ↦ subst (λ (y : String). (has_id y ns ≡ true) × (rank y < k)) p (b.0, b.1)
    | inr (p, e, e') ↦ Below-needs ns rank k ds d b.2 (ground arith)
  ]

  Ranked-needs :
      (ns l : List (DagNodeSpec A)) (rank : String → ℕ) (d k : String)
      → Ranked rank ns l
      → 0 < needs l d k
      → (has_id d ns ≡ true) × (rank d < rank k)
  Ranked-needs ns [] rank d k b h = absurd (omega arith)
  Ranked-needs ns (s ∷ l) rank d k b h = elim (str_eq-cases s.id k) [
    | inl (p, e, e') ↦ elim (Bool-cases (ltb 0 (count d s.depends_on))) [
      | inl y ↦
          (let q = Below-needs ns rank (rank s.id) s.depends_on d b.0 (ltb→lt 0 _ y) in
            (q.0, omega (arith, q.1, ap rank p)))
      | inr y ↦ Ranked-needs ns l rank d k b.1 (ground arith)
    ]
    | inr (p, e, e') ↦ Ranked-needs ns l rank d k b.1 (ground arith)
  ]

  -- By induction on the rank, every node of a ranked graph is placed.
  all_placed :
      (ss : List (DagNodeSpec A)) (rank : String → ℕ) (f : String → ℕ) (placed : List String)
      (n : ℕ) (k : String)
      → Ranked rank ss ss
      → Kahn ss [] f [] placed
      → rank k < n
      → f k ≡ 0
  all_placed ss rank f placed zero k b v h = absurd (omega arith)
  all_placed ss rank f placed (suc n) k b v h = elim (Bool-cases (f k == 0)) [
    | inl e ↦ ground arith
    | inr e ↦
        (let (d, p, q) = waits_some ss placed k (ground (arith, v.exact k)) in
          let (known, low) = Ranked-needs ss ss rank d k b p in
          let z = all_placed ss rank f placed n d b v (omega arith) in
          absurd (ground (arith, v.zeros d, has_id-ids d ss)))
  ]

  -- A graph with distinct ids that has such a rank passes: the loop ends, and no error is raised
  -- without a cycle.
  pub assert_acyclic_complete :
      (ss : List (DagNodeSpec A)) (rank : String → ℕ)
      → Distinct (ids ss)
      → Ranked rank ss ss
      → assert_acyclic ss ≡ none
  unfolding assert_acyclic
  assert_acyclic_complete ss rank d b =
      let r = run-Drained ss d in
      let v = r.valid in
      let done : positives r.final (ids ss) ≡ 0 =
        positives_zero r.final (ids ss)
          (λ k m. all_placed ss rank r.final r.placed (suc (rank k)) k b v (omega arith)) in
      ground (arith, r.returns, v.total)
