-- ===== src/Dag/Validate/Drain.antt =====
-- Kahn's algorithm ends, and what holds at its end.
use agent_sdk.Dag.Validate.Degrees.{waits, indegrees-waits, waits_absent}
use agent_sdk.Common.{
  Distinct, count, ◌==◌, ◌≡◌, [], if◌then◌else◌, ◌+◌, ◌∷◌, some, ◌≤◌, arith, str_eq-cases, zero,
  suc, refl, inl, ap, count_of_elem, inr, count-le_one,
}
use agent_sdk.Dag.{DagNodeSpec, ℕ, String, List, Bool, Option}
use agent_sdk.Dag.Validate.{ids, relax, drain, dependents, indegrees, having, length}
use agent_sdk.Dag.Validate.Kahn.{Kahn, positives, relax_all-Kahn, pop-Kahn}

count-having :
    (test : ℕ → Bool) (f : String → ℕ) (ks : List String) (k : String)
    → count k (having test f ks) ≡ (if test (f k) then count k ks else 0)
unfolding having
count-having test f [] k = ground arith
count-having test f (x ∷ ks) k = elim (str_eq-cases x k) [
  | inl (p, e, e') ↦ ground (arith, count-having test f ks k, ap f p)
  | inr (p, e, e') ↦ ground (arith, count-having test f ks k)
]

length-having :
    (f : String → ℕ) (ks : List String)
    → length (having (λ n. n == 0) f ks) + positives f ks ≡ length ks
unfolding having
length-having f [] = refl
length-having f (k ∷ ks) = ground (arith, length-having f ks)

module _ {A : Type 0} (ss : List (DagNodeSpec A)) where
  abbrev degrees : String → ℕ
  degrees = indegrees ss (λ _. 0)

  length-ids : (l : List (DagNodeSpec A)) → length (ids l) ≡ length l
  length-ids [] = refl
  length-ids (s ∷ l) = omega (arith, length-ids l)

  start-Kahn : Distinct (ids ss) → Kahn ss [] degrees (having (λ n. n == 0) degrees (ids ss)) []
  start-Kahn d =
      let f = degrees in
      let q = having (λ n. n == 0) f (ids ss) in
      let is : (k : String) → f k ≡ waits ss [] k =
        λ k. omega (arith, indegrees-waits ss (λ _. 0) k d (λ _. refl)) in
      let c : (k : String) → count k q ≡ (if f k == 0 then count k (ids ss) else 0) =
        λ k. count-having (λ n. n == 0) f (ids ss) k in
      record {
        known = λ k h. omega (arith, is k, waits_absent ss [] k h);
        queued = λ k h. ground (arith, c k);
        zeros = λ k h z. ground (arith, c k, count_of_elem k (ids ss) h);
        once = λ k. ground (arith, c k, count-le_one k (ids ss) d);
        exact = λ k. omega (arith, is k);
        ordered = tt;
        total = omega (arith, length-having f (ids ss), length-ids ss);
      }

  -- The loop's end: what `drain` returns, from any state in which the invariant holds.
  pub record Drained (r : Option ((String → ℕ) × ℕ)) : Type 0 where
    pub final : String → ℕ
    pub placed : List String
    pub returns : r ≡ some (final, length placed)
    pub valid : Kahn ss [] final [] placed

  drain-Drained :
      (fuel : ℕ) (f : String → ℕ) (q placed : List String) (n : ℕ)
      → Distinct (ids ss)
      → Kahn ss [] f q placed
      → n ≡ length placed
      → length ss ≤ fuel + n
      → Drained (drain (dependents ss (λ _. [])) fuel f q n)
  unfolding drain
  drain-Drained fuel f [] placed n d v e h = record {
    final = f;
    placed = placed;
    returns = ap (λ (x : ℕ). some (f, x)) e;
    valid = v;
  }
  drain-Drained zero f (id ∷ q) placed n d v e h = absurd (omega (arith, v.total))
  drain-Drained (suc fuel) f (id ∷ q) placed n d v e h =
      let cs = dependents ss (λ _. []) id in
      drain-Drained fuel (relax cs f q).0 (relax cs f q).1 (id ∷ placed) (n + 1) d
        (relax_all-Kahn ss cs f q (id ∷ placed) d (pop-Kahn ss id f q placed v)) (omega arith)
        (omega arith)

  -- The run that assertAcyclic makes.
  pub run-Drained :
      Distinct (ids ss)
      → Drained (
          drain
            (dependents ss (λ _. []))
            (length ss)
            (indegrees ss (λ _. 0))
            (having (λ n. n == 0) (indegrees ss (λ _. 0)) (ids ss))
            0)
  run-Drained d = drain-Drained (length ss) _ _ [] 0 d (start-Kahn d) refl (omega arith)
