-- ===== src/Dag/Replan/Ranks.antt =====
-- A rank of the combined graph is one of the spliced graph: lemmas on lists of ranked nodes.
use agent_sdk.Common.{◌++◌, ◌≡◌, true, Bool-cases, some, [], str_eq, subst, inl, inr}
use agent_sdk.Dag.Records.{has_id, specs}
use agent_sdk.Dag.{DagNodeSpec, NodeRecord, String, ℕ, List}
use agent_sdk.Dag.Loop.Settling.{Below, Ranked}
use agent_sdk.Dag.Replan.{without, last_node, reuse_record, ◌++◌, ◌∷◌}

module _ {A : Type 0} (rank : String → ℕ) where
  Below-mono :
      (ns ms : List (DagNodeSpec A)) (k : ℕ) (ds : List String)
      → ((d : String) → has_id d ns ≡ true → has_id d ms ≡ true)
      → Below rank ns k ds
      → Below rank ms k ds
  Below-mono ns ms k [] f b = tt
  Below-mono ns ms k (d ∷ ds) f b = (f d b.0, b.1, Below-mono ns ms k ds f b.2)

  pub Ranked-mono :
      (ns ms l : List (DagNodeSpec A))
      → ((d : String) → has_id d ns ≡ true → has_id d ms ≡ true)
      → Ranked rank ns l
      → Ranked rank ms l
  Ranked-mono ns ms [] f b = tt
  Ranked-mono ns ms (s ∷ l) f b =
      (Below-mono ns ms (rank s.id) s.depends_on f b.0, Ranked-mono ns ms l f b.1)

  pub Ranked-append :
      (ns l m : List (DagNodeSpec A))
      → Ranked rank ns l
      → Ranked rank ns m
      → Ranked rank ns (l ++ m)
  Ranked-append ns [] m b c = c
  Ranked-append ns (s ∷ l) m b c = (b.0, Ranked-append ns l m b.1 c)

  pub Ranked-split :
      (ns l m : List (DagNodeSpec A))
      → Ranked rank ns (l ++ m)
      → Ranked rank ns l × Ranked rank ns m
  Ranked-split ns [] m b = (tt, b)
  Ranked-split ns (s ∷ l) m b = let (x, y) = Ranked-split ns l m b.1 in ((b.0, x), y)

  pub Ranked-without :
      (ns l : List (DagNodeSpec A)) (id : String) → Ranked rank ns l → Ranked rank ns (without id l)
  Ranked-without ns [] id b = tt
  Ranked-without ns (s ∷ l) id b = elim (Bool-cases (str_eq s.id id)) [
    | inl e ↦ rw e (Ranked-without ns l id b.1)
    | inr e ↦ rw e (b.0, Ranked-without ns l id b.1)
  ]

  pub Below-last :
      (ns l : List (DagNodeSpec A)) (last : DagNodeSpec A)
      → last_node l ≡ some last
      → Ranked rank ns l
      → Below rank ns (rank last.id) last.depends_on
  Below-last ns [] last e b = absurd cc
  Below-last ns (s ∷ []) last e b =
      (let p : s ≡ last = cc in
        subst (λ (o : DagNodeSpec A). Below rank ns (rank o.id) o.depends_on) p b.0)
  Below-last ns (s ∷ (t ∷ l)) last e b = Below-last ns (t ∷ l) last e b.1

  pub Ranked-reuse_record :
      (ns : List (DagNodeSpec A)) (id : String) (last : DagNodeSpec A) (rs : List (NodeRecord A))
      → Below rank ns (rank last.id) last.depends_on
      → Ranked rank ns (without id (specs rs))
      → Ranked rank ns (specs (reuse_record id last rs))
  unfolding reuse_record
  Ranked-reuse_record ns id last [] l b = tt
  Ranked-reuse_record ns id last (r ∷ rs) l b = elim (Bool-cases (str_eq r.spec.id id)) [
    | inl e ↦ rw e (l, Ranked-reuse_record ns id last rs l (rw e at b))
    | inr e ↦ (let b' = rw e at b in rw e (b'.0, Ranked-reuse_record ns id last rs l b'.1))
  ]
