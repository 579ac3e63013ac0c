-- ===== src/Dag/Replan/Examples.antt =====
-- A failed node a of the chain a, b is replaced by a1 and an a that depends on it.
use agent_sdk.Common.{◌≡◌, Distinct, [], ◌∷◌, String, refl}
use agent_sdk.Dag.Records.{specs}
use agent_sdk.Dag.{DagNodeSpec, List, ℕ}
use agent_sdk.Dag.Samples.{plain, chain}
use agent_sdk.Common.Text.{is_blank}
use agent_sdk.Dag.Validate.{ids, assert_acyclic}
use agent_sdk.Dag.Replan.{validate_replan, splice_replan, reuse_record}
use agent_sdk.Dag.Replan.Splice.{validate_replan_sound}
use agent_sdk.Dag.Loop.Settling.{Ranked}

abbrev replan : List (DagNodeSpec ℕ)
replan = plain "a1" [] ∷ (plain "a" ("a1" ∷ []) ∷ [])

spliced_ids : ids (specs (splice_replan "a" replan chain)) ≡ "a" ∷ ("b" ∷ ("a1" ∷ []))
unfolding splice_replan reuse_record
spliced_ids = refl

validate_replan_sound_example :
    let after = specs (splice_replan "a" replan chain) in
    Distinct (ids after) × ((rank : String → ℕ) × Ranked rank after after)
unfolding validate_replan is_blank assert_acyclic
validate_replan_sound_example = validate_replan_sound "a" replan chain (refl, (refl, tt)) refl refl
