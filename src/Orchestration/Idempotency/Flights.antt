-- ===== src/Orchestration/Idempotency/Flights.antt =====
-- Calls that are under way, told apart by their keys.
use agent_sdk.Common.{
  str_eq-cases, inl, inr, ℕ, ◌≡◌, false, String, List, [], ◌∷◌, ◌++◌, All, str_eq,
}

-- A call that was invoked and has not settled; at `deadline` its entry in the cache is over.
pub record Flight : Type 0 where
  pub id : ℕ
  pub key : String
  pub ttl_ms : ℕ
  pub deadline : ℕ

-- No other flight has this key.
abbrev pub Apart : String → List Flight → Type 0
Apart key fs = All (λ (g : Flight). str_eq key g.key ≡ false) fs

abbrev pub AllApart : List Flight → Type 0
AllApart [] = Unit
AllApart (f ∷ fs) = Apart f.key fs × AllApart fs

pub split-All :
    (P : Flight → Type 0) (before after : List Flight) (f : Flight)
    → All P (before ++ (f ∷ after))
    → P f × All P (before ++ after)
split-All P [] after f all = all
split-All P (b ∷ before) after f all =
    let (pf, rest) = split-All P before after f all.1 in (pf, (all.0, rest))

apart_sym : (a b : String) → str_eq a b ≡ false → str_eq b a ≡ false
apart_sym a b e = elim (str_eq-cases a b) [ inl (p, t, t') ↦ absurd cc | inr (p, t, t') ↦ t' ]

pub split-AllApart :
    (before after : List Flight) (f : Flight)
    → AllApart (before ++ (f ∷ after))
    → Apart f.key (before ++ after) × AllApart (before ++ after)
split-AllApart [] after f d = d
split-AllApart (b ∷ before) after f d =
    let (apart, rest) = split-AllApart before after f d.1 in
    let (first, others) =
      split-All (λ (g : Flight). str_eq b.key g.key ≡ false) before after f d.0 in
    ((apart_sym b.key f.key first, apart), (others, rest))
