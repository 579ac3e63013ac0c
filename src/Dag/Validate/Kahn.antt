-- ===== src/Dag/Validate/Kahn.antt =====
-- The invariant of Kahn's algorithm: what its degrees and its queue say of the nodes placed so far.
use agent_sdk.Dag.Validate.Degrees.{waits, waits-cons, count-dependents}
use agent_sdk.Common.{
  if◌then◌else◌, Distinct, ◌<◌, count, ◌==◌, ◌≡◌, update, ◌+◌, false, true, ◌-◌, ◌++◌, str_eq-cases,
  arith, ◌≤◌, [], str_eq, inl, length, count-append, eq_refl, inr, subst, ap, sym, refl,
  length-append,
}
use agent_sdk.Dag.{DagNodeSpec, String, List, ℕ}
use agent_sdk.Dag.Validate.{ids, relax, dependents, ◌∷◌, if◌then◌else◌, elem}

-- How many of the keys have a positive degree.
abbrev pub positives : (String → ℕ) → List String → ℕ
positives f [] = 0
positives f (k ∷ ks) = (if f k == 0 then 0 else 1) + positives f ks

positives_absent :
    (f : String → ℕ) (c : String) (v : ℕ) (ks : List String)
    → elem c ks ≡ false
    → positives (update f c v) ks ≡ positives f ks
positives_absent f c v [] h = refl
positives_absent f c v (k ∷ ks) h = elim (str_eq-cases c k) [
  | inl (p, e, e') ↦ absurd (ground arith)
  | inr (p, e, e') ↦ ground (arith, positives_absent f c v ks)
]

positives_last :
    (f : String → ℕ) (c : String) (ks : List String)
    → Distinct ks
    → elem c ks ≡ true
    → f c ≡ 1
    → positives (update f c (f c - 1)) ks + 1 ≡ positives f ks
positives_last f c [] d h o = absurd (ground arith)
positives_last f c (k ∷ ks) d h o = elim (str_eq-cases c k) [
  | inl (p, e, e') ↦
      (let gone : elem c ks ≡ false = subst (λ (y : String). elem y ks ≡ false) (sym p) d.0 in
        ground (arith, positives_absent f c (f c - 1) ks gone, ap f p))
  | inr (p, e, e') ↦ ground (arith, positives_last f c ks d.1)
]

positives_more :
    (f : String → ℕ) (c : String) (ks : List String)
    → 1 < f c
    → positives (update f c (f c - 1)) ks ≡ positives f ks
positives_more f c [] o = refl
positives_more f c (k ∷ ks) o = elim (str_eq-cases c k) [
  | inl (p, e, e') ↦ ground (arith, positives_more f c ks o, ap f p)
  | inr (p, e, e') ↦ ground (arith, positives_more f c ks o)
]

positives_step :
    (f : String → ℕ) (c : String) (ks : List String)
    → Distinct ks
    → elem c ks ≡ true
    → 0 < f c
    → positives (update f c (f c - 1)) ks + (if f c == 1 then 1 else 0) ≡ positives f ks
positives_step f c ks d h o = ground (arith, positives_last f c ks d h, positives_more f c ks)

module _ {A : Type 0} (ss : List (DagNodeSpec A)) where
  -- The last placed first: all dependencies of a node are placed before it.
  abbrev pub Ordered : List String → Type 0
  Ordered [] = Unit
  Ordered (k ∷ placed) = (waits ss placed k ≡ 0) × Ordered placed

  -- `cs` are the dependents of the last placed node that the loop has not reached yet.
  pub record Kahn (cs : List String) (f : String → ℕ) (q placed : List String) : Type 0 where
    pub known : (k : String) → elem k (ids ss) ≡ false → f k ≡ 0
    pub queued : (k : String) → 0 < count k q + count k placed → f k ≡ 0
    pub zeros : (k : String) → elem k (ids ss) ≡ true → f k ≡ 0 → 0 < count k q + count k placed
    pub once : (k : String) → count k q + count k placed ≤ 1
    pub exact : (k : String) → f k ≡ waits ss placed k + count k cs
    pub ordered : Ordered placed
    pub total : length placed + length q + positives f (ids ss) ≡ length ss

  push : String → ℕ → List String → List String
  push c n q = if n == 1 then q ++ (c ∷ []) else q

  count-push :
      (c : String) (n : ℕ) (q : List String) (k : String)
      → count k (push c n q) ≡ count k q + (if n == 1 then (if str_eq c k then 1 else 0) else 0)
  unfolding push
  count-push c n q k = ground (arith, count-append k q (c ∷ []))

  length-push :
      (c : String) (n : ℕ) (q : List String)
      → length (push c n q) ≡ length q + (if n == 1 then 1 else 0)
  unfolding push
  length-push c n q = ground (arith, length-append q (c ∷ []))

  relax-Kahn :
      (c : String) (cs : List String) (f : String → ℕ) (q placed : List String)
      → Distinct (ids ss)
      → Kahn (c ∷ cs) f q placed
      → Kahn cs (update f c (f c - 1)) (push c (f c) q) placed
  relax-Kahn c cs f q placed d v =
      let some_left : 0 < f c = ground (arith, v.exact c, eq_refl c) in
      let at : (k : String) → (c ≡ k) → f c ≡ f k = λ k p. ap f p in
      record {
        known = λ k h. elim (str_eq-cases c k) [
          | inl (p, e, e') ↦ ground (arith, v.known k h, at k p)
          | inr (p, e, e') ↦ ground (arith, v.known k h)
        ];
        queued = λ k h. elim (str_eq-cases c k) [
          | inl (p, e, e') ↦ ground (arith, v.queued k, at k p, count-push c (f c) q k)
          | inr (p, e, e') ↦ ground (arith, v.queued k, count-push c (f c) q k)
        ];
        zeros = λ k h z. elim (str_eq-cases c k) [
          | inl (p, e, e') ↦ ground (arith, v.zeros k h, at k p, count-push c (f c) q k)
          | inr (p, e, e') ↦ ground (arith, v.zeros k h, count-push c (f c) q k)
        ];
        once = λ k. elim (str_eq-cases c k) [
          | inl (p, e, e') ↦ ground (arith, v.queued k, v.once k, at k p, count-push c (f c) q k)
          | inr (p, e, e') ↦ ground (arith, v.once k, count-push c (f c) q k)
        ];
        exact = λ k. elim (str_eq-cases c k) [
          | inl (p, e, e') ↦ ground (arith, v.exact k, at k p)
          | inr (p, e, e') ↦ ground (arith, v.exact k)
        ];
        ordered = v.ordered;
        total =
            (let member : elem c (ids ss) ≡ true = ground (arith, v.known c) in
              ground (
                arith,
                v.total,
                length-push c (f c) q,
                positives_step f c (ids ss) d member some_left,
              ));
      }

  pub relax_all-Kahn :
      (cs : List String) (f : String → ℕ) (q placed : List String)
      → Distinct (ids ss)
      → Kahn cs f q placed
      → Kahn [] (relax cs f q).0 (relax cs f q).1 placed
  unfolding relax push
  relax_all-Kahn [] f q placed d v = v
  relax_all-Kahn (c ∷ cs) f q placed d v =
      relax_all-Kahn cs _ _ placed d (relax-Kahn c cs f q placed d v)

  pub pop-Kahn :
      (id : String) (f : String → ℕ) (q placed : List String)
      → Kahn [] f (id ∷ q) placed
      → Kahn (dependents ss (λ _. []) id) f q (id ∷ placed)
  pop-Kahn id f q placed v =
      let fresh : count id placed ≡ 0 = ground (arith, v.once id, eq_refl id) in
      let idle : waits ss placed id ≡ 0 = ground (arith, v.exact id, v.queued id, eq_refl id) in
      record {
        known = v.known;
        queued = λ k h. ground (arith, v.queued k);
        zeros = λ k h z. ground (arith, v.zeros k h z);
        once = λ k. ground (arith, v.once k);
        exact = λ k.
            omega (
              arith,
              v.exact k,
              waits-cons ss id placed k fresh,
              count-dependents ss (λ _. []) id k,
            );
        ordered = (idle, v.ordered);
        total = omega (arith, v.total);
      }
