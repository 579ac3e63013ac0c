-- ===== src/Compute/Battery/Completeness.antt =====
-- A decision keeps every candidate that it does not accept.
use agent_sdk.Compute.Battery.Selection.{Indexed, Stands, Selected}
use agent_sdk.Compute.Battery.{index_is, keep_rejected, CandidateVerdict}
use agent_sdk.Common.{
  ◌⊎◌, ◌∙◌, sym, subst, true, false, ◌≢◌, Bool-cases, if_cases, [], ◌∷◌, none, some, inl, inr, refl,
  ap, Option, ℕ, List, ◌<◌, length, ◌≡◌, ◌≤◌, ◌+◌, arith, suc,
}

-- The candidates that a decision accepts: one or none.
abbrev pub accepted_count : Option CandidateVerdict → ℕ
accepted_count none = 0
accepted_count (some b) = 1

kept_all :
    (s i : ℕ) (b : CandidateVerdict) (vs : List CandidateVerdict)
    → b.candidate_index < i
    → Indexed s i vs
    → length (keep_rejected (some b) vs) ≡ length vs
unfolding keep_rejected
kept_all s i b [] lt ix = refl
kept_all s i b (v ∷ vs) lt ix = ground (arith, kept_all s (suc i) b vs (omega arith) ix.2, ix.0)

Stands-index :
    (s i : ℕ) (b : CandidateVerdict) (vs : List CandidateVerdict)
    → Indexed s i vs
    → Stands b vs
    → i ≤ b.candidate_index
Stands-index s i b [] ix st = absurd st
Stands-index s i b (v ∷ vs) ix (inl e) =
    omega (arith, ix.0, ap (λ (x : CandidateVerdict). x.candidate_index) e)
Stands-index s i b (v ∷ vs) ix (inr st) = omega (arith, Stands-index s (suc i) b vs ix.2 st)

pub rejected_count :
    (s i : ℕ) (vs : List CandidateVerdict) (o : Option CandidateVerdict)
    → Indexed s i vs
    → Selected vs o
    → length (keep_rejected o vs) + accepted_count o ≡ length vs
unfolding keep_rejected
rejected_count s i [] none ix d = refl
rejected_count s i [] (some b) ix d = absurd d.0
rejected_count s i (v ∷ vs) none ix d = omega (arith, rejected_count s (suc i) vs none ix.2 d.1)
rejected_count s i (v ∷ vs) (some b) ix (inl e, survives, all) = ground (
  arith,
  kept_all s (suc i) b vs (omega (arith, ix.0, ap (λ (x : CandidateVerdict). x.candidate_index) e))
      ix.2,
  ap (λ (x : CandidateVerdict). x.candidate_index) e,
)
rejected_count s i (v ∷ vs) (some b) ix (inr st, survives, all) = ground (
  arith,
  rejected_count s (suc i) vs (some b) ix.2 (st, survives, all.1),
  Stands-index s (suc i) b vs ix.2 st,
  ix.0,
)

same_place :
    (s i : ℕ) (v b : CandidateVerdict) (vs : List CandidateVerdict)
    → Indexed s i vs
    → Stands v vs
    → Stands b vs
    → v.candidate_index ≡ b.candidate_index
    → v ≡ b
same_place s i v b [] ix sv sb e = absurd sv
same_place s i v b (x ∷ vs) ix (inl p) (inl q) e = p ∙ sym q
same_place s i v b (x ∷ vs) ix (inl p) (inr q) e =
    let at = ap (λ (y : CandidateVerdict). y.candidate_index) p in
    let after = Stands-index s (suc i) b vs ix.2 q in absurd (omega (arith, at, after, e, ix.0))
same_place s i v b (x ∷ vs) ix (inr p) (inl q) e =
    let at = ap (λ (y : CandidateVerdict). y.candidate_index) q in
    let after = Stands-index s (suc i) v vs ix.2 p in absurd (omega (arith, at, after, e, ix.0))
same_place s i v b (x ∷ vs) ix (inr p) (inr q) e = same_place s (suc i) v b vs ix.2 p q e

kept_or_index :
    (o : Option CandidateVerdict) (v : CandidateVerdict) (vs : List CandidateVerdict)
    → Stands v vs
    → (index_is v.candidate_index o ≡ true) ⊎ Stands v (keep_rejected o vs)
unfolding keep_rejected
kept_or_index o v [] st = absurd st
kept_or_index o v (w ∷ vs) (inl p) = elim (Bool-cases (index_is w.candidate_index o)) [
  | inl e ↦ inl (subst (λ (x : CandidateVerdict). index_is x.candidate_index o ≡ true) (sym p) e)
  | inr e ↦ rw e (inr (inl p))
]
kept_or_index o v (w ∷ vs) (inr st) = elim (kept_or_index o v vs st) [
  | inl e ↦ inl e
  | inr k ↦ inr (if_cases (Stands v) (index_is w.candidate_index o) _ _ (λ _. k) (λ _. inr k))
]

kept_only :
    (o : Option CandidateVerdict) (v : CandidateVerdict) (vs : List CandidateVerdict)
    → Stands v (keep_rejected o vs)
    → Stands v vs × (index_is v.candidate_index o ≡ false)
unfolding keep_rejected
kept_only o v [] st = absurd st
kept_only o v (w ∷ vs) st = elim (Bool-cases (index_is w.candidate_index o)) [
  | inl e ↦ (let (there, other) = kept_only o v vs (rw e at st) in (inr there, other))
  | inr e ↦ elim (rw e at st) as (λ x. Stands v (w ∷ vs) × (index_is v.candidate_index o ≡ false)) [
    | inl p ↦
        (inl p, subst (λ (x : CandidateVerdict). index_is x.candidate_index o ≡ false) (sym p) e)
    | inr k ↦ (let (there, other) = kept_only o v vs k in (inr there, other))
  ]
]

-- The rejected are the verdicts but the accepted one.
pub record Retains (vs : List CandidateVerdict) (o : Option CandidateVerdict)
    (rejected : List CandidateVerdict) : Type 0 where
  pub kept : (v : CandidateVerdict) → Stands v vs → (o ≡ some v) ⊎ Stands v rejected
  pub only : (v : CandidateVerdict) → Stands v rejected → Stands v vs × (o ≢ some v)

not_accepted :
    (o : Option CandidateVerdict) (v : CandidateVerdict)
    → index_is v.candidate_index o ≡ false
    → o ≢ some v
not_accepted none v e p = cc
not_accepted (some b) v e p =
    let same : b ≡ v = cc in
    let at = ap (λ (y : CandidateVerdict). y.candidate_index) same in ground (arith, at)

accepted_at :
    (s i : ℕ) (vs : List CandidateVerdict) (o : Option CandidateVerdict) (v : CandidateVerdict)
    → Indexed s i vs
    → Selected vs o
    → Stands v vs
    → index_is v.candidate_index o ≡ true
    → o ≡ some v
accepted_at s i vs none v ix chosen st e = absurd cc
accepted_at s i vs (some b) v ix chosen st e =
    ap some (sym (same_place s i v b vs ix st chosen.0 (ground arith)))

pub keep_rejected-Retains :
    (s i : ℕ) (vs : List CandidateVerdict) (o : Option CandidateVerdict)
    → Indexed s i vs
    → Selected vs o
    → Retains vs o (keep_rejected o vs)
keep_rejected-Retains s i vs o ix chosen = record {
  kept = λ v st. elim (kept_or_index o v vs st) [
    | inl e ↦ inl (accepted_at s i vs o v ix chosen st e)
    | inr k ↦ inr k
  ];
  only = λ v st. (let (there, other) = kept_only o v vs st in (there, not_accepted o v other));
}
