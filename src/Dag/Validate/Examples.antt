-- ===== src/Dag/Validate/Examples.antt =====
-- The chain a, b is accepted, and two nodes that depend on each other are not.
use agent_sdk.Dag.Loop.Safety.{AllPending}
use agent_sdk.Dag.Records.{specs}
use agent_sdk.Dag.Loop.Settling.{Ranked}
use agent_sdk.Common.{◌≡◌, ℕ, some, none, [], ◌∷◌, if◌then◌else◌, arith, refl, str_eq, false}
use agent_sdk.Dag.{DagNodeSpec, List, String}
use agent_sdk.Dag.Samples.{plain, chain}
use agent_sdk.Dag.Validate.{assert_acyclic, cycle, validate}
use agent_sdk.Dag.Validate.Acyclic.{assert_acyclic_sound, assert_acyclic_complete}
use agent_sdk.Dag.Validate.Accepted.{validate_accepts}

abbrev two : List (DagNodeSpec ℕ)
two = plain "a" [] ∷ (plain "b" ("a" ∷ []) ∷ [])

abbrev mutual_deps : List (DagNodeSpec ℕ)
mutual_deps = plain "a" ("b" ∷ []) ∷ (plain "b" ("a" ∷ []) ∷ [])

mutual_refused : assert_acyclic mutual_deps ≡ some (cycle ("a" ∷ ("b" ∷ [])))
unfolding assert_acyclic
mutual_refused = refl

two_passes : assert_acyclic two ≡ none
unfolding assert_acyclic
two_passes = refl

abbrev rank : String → ℕ
rank id = if str_eq id "a" then 0 else 1

assert_acyclic_sound_example : (rank : String → ℕ) × Ranked rank two two
assert_acyclic_sound_example =
    assert_acyclic_sound two (refl, (refl, tt)) (tt, ((refl, tt), tt)) two_passes

assert_acyclic_complete_example : assert_acyclic two ≡ none
assert_acyclic_complete_example =
    assert_acyclic_complete two rank (refl, (refl, tt)) (tt, ((refl, omega arith, tt), tt))

validate_accepts_example :
    (specs chain ≡ two)
    × AllPending chain
    × ((rank : String → ℕ) × Ranked rank (specs chain) (specs chain))
unfolding validate
validate_accepts_example = validate_accepts "ADR-1" "run" false two chain refl
