-- ===== src/Compute/Battery/Selection.antt =====
-- Which candidate a battery accepts, and that it loses none.
use agent_sdk.Compute.Battery.{CandidateVerdict, select, exceeds}
use agent_sdk.Common.{
  [], ◌∷◌, true, false, none, some, inl, inr, refl, sym, ℕ, List, ◌≡◌, ◌⊎◌, suc, subst, ◌<◌, ◌≤◌,
  ltb, Bool-cases, All, ◌*◌, arith, Option, ◌≢◌,
}

-- The verdict stands in the list.
abbrev pub Stands : CandidateVerdict → List CandidateVerdict → Type 0
Stands v [] = ⊥
Stands v (w ∷ ws) = (v ≡ w) ⊎ Stands v ws

-- `v` is killed, or has a lower score than `best`, or the same score, and does not come before it.
abbrev pub Yields : CandidateVerdict → CandidateVerdict → Type 0
Yields best v =
    (v.killed ≡ true)
    ⊎ ((exceeds best v ≡ true)
        ⊎ ((exceeds v best ≡ false) × (best.candidate_index ≤ v.candidate_index)))

-- The verdicts have their places as indices, from `i` on, and one scale.
abbrev pub Indexed : ℕ → ℕ → List CandidateVerdict → Type 0
Indexed s i [] = Unit
Indexed s i (v ∷ vs) = (v.candidate_index ≡ i) × (v.scale ≡ s) × Indexed s (suc i) vs

exceeds_at :
    (s : ℕ) (v w : CandidateVerdict)
    → v.scale ≡ s
    → w.scale ≡ s
    → exceeds v w ≡ ltb (w.composite * s) (v.composite * s)
exceeds_at s v w p q = rw (p, q) refl

Yields-next :
    (s : ℕ) (best v u : CandidateVerdict)
    → best.scale ≡ s
    → v.scale ≡ s
    → u.scale ≡ s
    → exceeds v best ≡ true
    → Yields best u
    → Yields v u
Yields-next s best v u p q r more (inl k) = inl k
Yields-next s best v u p q r more (inr (inl k)) = inr (
    inl (
      ground (
        arith,
        exceeds_at s v best q p,
        exceeds_at s best u p r,
        exceeds_at s u best r p,
        exceeds_at s v u q r,
      )))
Yields-next s best v u p q r more (inr (inr (k, le))) = inr (
    inl (
      ground (
        arith,
        exceeds_at s v best q p,
        exceeds_at s best u p r,
        exceeds_at s u best r p,
        exceeds_at s v u q r,
      )))

-- What yields to the best one so far yields to the one that is chosen in the end.
select-Yields :
    (s i : ℕ) (best b u : CandidateVerdict) (vs : List CandidateVerdict)
    → best.scale ≡ s
    → u.scale ≡ s
    → Indexed s i vs
    → select (some best) vs ≡ some b
    → Yields best u
    → Yields b u
unfolding select
select-Yields s i best b u [] p r ix e y =
    (let same : best ≡ b = cc in subst (λ (x : CandidateVerdict). Yields x u) same y)
select-Yields s i best b u (v ∷ vs) p r ix e y = elim (Bool-cases v.killed) [
  | inl k ↦ select-Yields s (suc i) best b u vs p r ix.2 (ground arith) y
  | inr k ↦ elim (Bool-cases (exceeds v best)) [
    | inl x ↦
        select-Yields s (suc i) v b u vs ix.1 r ix.2 (ground arith)
          (Yields-next s best v u p ix.1 r x y)
    | inr x ↦ select-Yields s (suc i) best b u vs p r ix.2 (ground arith) y
  ]
]

record Chosen (best : CandidateVerdict) (vs : List CandidateVerdict) (b : CandidateVerdict)
    : Type 0 where
  stands : (b ≡ best) ⊎ Stands b vs
  survives : b.killed ≡ false
  all_yield : All (Yields b) vs

later :
    (b best v : CandidateVerdict) (vs : List CandidateVerdict)
    → (b ≡ best) ⊎ Stands b vs
    → (b ≡ best) ⊎ Stands b (v ∷ vs)
later b best v vs (inl e) = inl e
later b best v vs (inr s) = inr (inr s)

select-Chosen :
    (s i : ℕ) (best b : CandidateVerdict) (vs : List CandidateVerdict)
    → best.scale ≡ s
    → best.killed ≡ false
    → best.candidate_index < i
    → Indexed s i vs
    → select (some best) vs ≡ some b
    → Chosen best vs b
unfolding select
select-Chosen s i best b [] p k lt ix e =
    (let same : best ≡ b = cc in
      record {
        stands = inl (sym same);
        survives = subst (λ (x : CandidateVerdict). x.killed ≡ false) same k;
        all_yield = tt;
      })
select-Chosen s i best b (v ∷ vs) p k lt ix e = elim (Bool-cases v.killed) [
  | inl d ↦
      (let c = select-Chosen s (suc i) best b vs p k (omega arith) ix.2 (ground arith) in
        record {
          stands = later b best v vs c.stands;
          survives = c.survives;
          all_yield = (inl d, c.all_yield);
        })
  | inr d ↦ elim (Bool-cases (exceeds v best)) [
    | inl x ↦
        (let rest : select (some v) vs ≡ some b = ground arith in
          let c = select-Chosen s (suc i) v b vs ix.1 d (omega (arith, ix.0)) ix.2 rest in
          record {
            stands = inr c.stands;
            survives = c.survives;
            all_yield = (
              select-Yields s (suc i) v b v vs ix.1 ix.1 ix.2 rest
                  (inr (inr (ground arith, omega arith))),
              c.all_yield,
            );
          })
    | inr x ↦
        (let rest : select (some best) vs ≡ some b = ground arith in
          let c = select-Chosen s (suc i) best b vs p k (omega arith) ix.2 rest in
          record {
            stands = later b best v vs c.stands;
            survives = c.survives;
            all_yield = (
              select-Yields s (suc i) best b v vs p ix.1 ix.2 rest
                  (inr (inr (x, omega (arith, ix.0)))),
              c.all_yield,
            );
          })
  ]
]

-- What is chosen of a list, or that all of it is killed.
abbrev pub Selected : List CandidateVerdict → Option CandidateVerdict → Type 0
Selected vs none = All (λ (v : CandidateVerdict). v.killed ≡ true) vs
Selected vs (some b) = Stands b vs × (b.killed ≡ false) × All (Yields b) vs

select-some_not_none :
    (best : CandidateVerdict) (vs : List CandidateVerdict) → select (some best) vs ≢ none
unfolding select
select-some_not_none best [] e = absurd cc
select-some_not_none best (v ∷ vs) e =
    ground (arith, select-some_not_none best vs, select-some_not_none v vs)

pub select_first :
    (s i : ℕ) (vs : List CandidateVerdict) (o : Option CandidateVerdict)
    → Indexed s i vs
    → select none vs ≡ o
    → Selected vs o
unfolding select
select_first s i [] none ix e = tt
select_first s i [] (some b) ix e = absurd cc
select_first s i (v ∷ vs) none ix e = elim (Bool-cases v.killed) [
  | inl d ↦ (d, select_first s (suc i) vs none ix.2 (ground arith))
  | inr d ↦ absurd (select-some_not_none v vs (ground arith))
]
select_first s i (v ∷ vs) (some b) ix e = elim (Bool-cases v.killed) [
  | inl d ↦
      (let (stands, survives, all) = select_first s (suc i) vs (some b) ix.2 (ground arith) in
        (inr stands, survives, (inl d, all)))
  | inr d ↦
      (let rest : select (some v) vs ≡ some b = ground arith in
        let c = select-Chosen s (suc i) v b vs ix.1 d (omega (arith, ix.0)) ix.2 rest in
        (
          c.stands,
          c.survives,
          (
            select-Yields s (suc i) v b v vs ix.1 ix.1 ix.2 rest
                (inr (inr (ground arith, omega arith))),
            c.all_yield,
          ),
        ))
]
