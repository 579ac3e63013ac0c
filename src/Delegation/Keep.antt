-- ===== src/Delegation/Keep.antt =====
-- What a filtered list of names holds.
use agent_sdk.Delegation.Tools.{keep}
use agent_sdk.Common.{
  String, List, [], ◌∷◌, Bool, true, not, ◌&&◌, elem, length, All, ◌≡◌, ◌↔◌, ◌==◌, refl, ap, inl,
  inr, Bool-cases, str_eq-cases, eq_refl, arith,
}

pub keep-All :
    (test : String → Bool) (P : String → Type 0) (xs : List String)
    → ((x : String) → test x ≡ true → P x)
    → All P (keep test xs)
keep-All test P [] f = tt
keep-All test P (x ∷ xs) f = elim (Bool-cases (test x)) [
  | inl e ↦ rw e (f x e, keep-All test P xs f)
  | inr e ↦ rw e (keep-All test P xs f)
]

pub All-keep :
    (test : String → Bool) (P : String → Type 0) (xs : List String)
    → All P xs
    → All P (keep test xs)
All-keep test P [] all = tt
All-keep test P (x ∷ xs) all = elim (Bool-cases (test x)) [
  | inl e ↦ rw e (all.0, All-keep test P xs all.1)
  | inr e ↦ rw e (All-keep test P xs all.1)
]

pub keep_all_of :
    (test : String → Bool) (xs : List String)
    → length (keep (λ n. not (test n)) xs) ≡ 0
    → keep test xs ≡ xs
keep_all_of test [] h = refl
keep_all_of test (x ∷ xs) h = elim (Bool-cases (test x)) [
  | inl e ↦ rw e (ap (λ (l : List String). x ∷ l) (keep_all_of test xs (ground arith)))
  | inr e ↦ absurd (ground arith)
]

pub All-both :
    (P Q : String → Type 0) (xs : List String)
    → All P xs
    → All Q xs
    → All (λ (x : String). P x × Q x) xs
All-both P Q [] p q = tt
All-both P Q (x ∷ xs) p q = ((p.0, q.0), All-both P Q xs p.1 q.1)

pub elem-keep :
    (test : String → Bool) (xs : List String) (t : String)
    → elem t (keep test xs) ≡ (elem t xs && test t)
elem-keep test [] t = refl
elem-keep test (x ∷ xs) t = elim (str_eq-cases x t) [
  | inl (p, e, e') ↦ (let same = ap test p in ground (arith, elem-keep test xs t))
  | inr (p, e, e') ↦ ground (arith, elem-keep test xs t)
]

pub none_left :
    (test : String → Bool) (xs : List String)
    → ((length (keep (λ n. not (test n)) xs) == 0) ≡ true) ↔ All (λ (x : String). test x ≡ true) xs
none_left test [] = (λ h. tt, λ h. refl)
none_left test (x ∷ xs) = elim (Bool-cases (test x)) [
  | inl e ↦ (let (f, g) = none_left test xs in rw e (λ h. (refl, f h), λ h. g h.1))
  | inr e ↦ rw e (λ h. absurd (ground arith), λ h. absurd (ground (arith, h.0)))
]

pub All-keep_iff :
    (test : String → Bool) (P : String → Type 0) (xs : List String)
    → All P (keep test xs) ↔ All (λ (x : String). test x ≡ true → P x) xs
All-keep_iff test P [] = (λ h. tt, λ h. tt)
All-keep_iff test P (x ∷ xs) = elim (Bool-cases (test x)) [
  | inl e ↦
      (let (f, g) = All-keep_iff test P xs in
        (λ h. (let k = rw e at h in (λ y. k.0, f k.1)), λ h. rw e (h.0 e, g h.1)))
  | inr e ↦
      (let (f, g) = All-keep_iff test P xs in
        (λ h. (λ y. absurd (ground arith), f (rw e at h)), λ h. rw e (g h.1)))
]

All-elem_more :
    (y : String) (ys xs : List String)
    → All (λ (x : String). elem x ys ≡ true) xs
    → All (λ (x : String). elem x (y ∷ ys) ≡ true) xs
All-elem_more y ys [] h = tt
All-elem_more y ys (x ∷ xs) h = (ground (arith, h.0), All-elem_more y ys xs h.1)

pub All-elem_self : (xs : List String) → All (λ (x : String). elem x xs ≡ true) xs
All-elem_self [] = tt
All-elem_self (x ∷ xs) = (ground (arith, eq_refl x), All-elem_more x xs xs (All-elem_self xs))
