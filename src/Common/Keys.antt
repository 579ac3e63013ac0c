-- ===== src/Common/Keys.antt =====
-- Lists of keys, and functions from keys that are updated at one.
use Prim.Native.Nat.{ℕ, suc, ◌+◌, ◌<◌, ◌≤◌}
use Prim.Native.String.{String}
use mathlib.Core.Path.{◌≡◌, refl, sym, subst}
use mathlib.Core.Logic.{◌⊎◌, ◌≢◌, inl, inr}
use mathlib.Core.Bool.{Bool, true, false}
use mathlib.Core.List.{List, [], ◌∷◌, ◌++◌}
use native.Mathlib.Omega.{arith}
use text.Mathlib.Text.{◌==◌ as str_eq}
use text.Mathlib.TextEquality.{eq_iff}
use text.Mathlib.TextPositions.{eq_refl}
use agent_sdk.Common.Tests.{if◌then◌else◌, Bool-cases}

-- Two keys are the same, or differ.
pub str_eq-cases :
    (a b : String)
    → ((a ≡ b) × (str_eq a b ≡ true) × (str_eq b a ≡ true))
      ⊎ ((a ≢ b) × (str_eq a b ≡ false) × (str_eq b a ≡ false))
str_eq-cases a b = elim (Bool-cases (str_eq a b)) [
  | inl e ↦ (let p = (eq_iff a b).0 e in inl (p, e, (eq_iff b a).1 (sym p)))
  | inr e ↦
      (let differ : a ≢ b = λ p. let t = (eq_iff a b).1 p in cc in
        elim (Bool-cases (str_eq b a)) [
          | inl e' ↦ absurd (differ (sym ((eq_iff b a).0 e')))
          | inr e' ↦ inr (differ, e, e')
        ])
]

-- `xs.includes(k)`
abbrev pub elem : String → List String → Bool
elem k [] = false
elem k (x ∷ xs) = if str_eq x k then true else elem k xs

-- How often a key occurs.
abbrev pub count : String → List String → ℕ
count k [] = 0
count k (x ∷ xs) = if str_eq x k then suc (count k xs) else count k xs

-- No key occurs twice.
abbrev pub Distinct : List String → Type 0
Distinct [] = Unit
Distinct (x ∷ xs) = (elem x xs ≡ false) × Distinct xs

-- `m.set(k, v)` on the function that reads the map.
abbrev pub update {ℓ} : {A : Type ℓ} → (String → A) → String → A → String → A
update f k v x = if str_eq k x then v else f x

pub count-append : (k : String) (xs ys : List String) → count k (xs ++ ys) ≡ count k xs + count k ys
count-append k [] ys = omega arith
count-append k (x ∷ xs) ys = ground (arith, count-append k xs ys)

pub elem_of_count : (k : String) (xs : List String) → count k xs ≡ 0 → elem k xs ≡ false
elem_of_count k [] h = refl
elem_of_count k (x ∷ xs) h = ground (arith, elem_of_count k xs)

pub elem-append :
    (k : String) (xs ys : List String) → elem k (xs ++ ys) ≡ (if elem k xs then true else elem k ys)
elem-append k [] ys = refl
elem-append k (x ∷ xs) ys = ground (arith, elem-append k xs ys)

pub count_of_elem : (k : String) (xs : List String) → elem k xs ≡ true → 0 < count k xs
count_of_elem k [] h = absurd (ground arith)
count_of_elem k (x ∷ xs) h = ground (arith, count_of_elem k xs)

pub count_absent : (k : String) (xs : List String) → elem k xs ≡ false → count k xs ≡ 0
count_absent k [] h = refl
count_absent k (x ∷ xs) h = ground (arith, count_absent k xs)

pub count-le_one : (k : String) (xs : List String) → Distinct xs → count k xs ≤ 1
count-le_one k [] d = omega arith
count-le_one k (x ∷ xs) d = elim (str_eq-cases x k) [
  | inl (p, e, e') ↦
      (let gone : elem k xs ≡ false = subst (λ (y : String). elem y xs ≡ false) p d.0 in
        ground (arith, count_absent k xs gone))
  | inr (p, e, e') ↦ ground (arith, count-le_one k xs d.1)
]

pub Distinct-of_count : (xs : List String) → ((k : String) → count k xs ≤ 1) → Distinct xs
Distinct-of_count [] h = tt
Distinct-of_count (x ∷ xs) h = (
  elem_of_count x xs (ground (arith, h x, eq_refl x)),
  Distinct-of_count xs (λ k. ground (arith, h k)),
)

pub elem_of_positive : (k : String) (xs : List String) → 0 < count k xs → elem k xs ≡ true
elem_of_positive k [] h = absurd (omega arith)
elem_of_positive k (x ∷ xs) h = ground (arith, elem_of_positive k xs)
