-- ===== src/Dag/Replan.antt =====
-- Re-planning: validateReplan and spliceReplan. The re-planner returns a sub-graph whose last node
-- reuses the failed id.
pub mod Graph
pub mod Ranks
pub mod Splice
mod Examples
use agent_sdk.Common.{◌++◌, count, if◌then◌else◌, ◌∷◌, ◌==◌, length, str_eq, elem, ltb, []}
use agent_sdk.Common.Text.{is_blank}
use agent_sdk.Dag.{
  DagNodeSpec, NodeRecord, String, List, Option, none, some, Rejection, empty_replan, empty_node_id,
  introduces_cycle, no_reuse, reused_twice, not_last, duplicate_node, collides, self_dependent,
  unknown_node,
}
use agent_sdk.Dag.Validate.{ids, new_record, assert_acyclic}

-- `self` before `unknown`, unlike assertNoMissingDeps.
pub bad_dep : List String → String → List String → Option Rejection
bad_dep known id [] = none
bad_dep known id (d ∷ ds) =
    let rest = bad_dep known id ds in
    if str_eq d id
    then some (self_dependent id)
    else if elem d known
    then rest
    else some (unknown_node id d)

abbrev pub first_rejection : Option Rejection → Option Rejection → Option Rejection
first_rejection (some e) rest = some e
first_rejection none rest = rest

module _ {A : Type 0} where
  -- `returned[returned.length - 1]`
  abbrev pub last_node : List (DagNodeSpec A) → Option (DagNodeSpec A)
  last_node [] = none
  last_node (s ∷ []) = some s
  last_node (s ∷ (t ∷ ss)) = last_node (t ∷ ss)

  -- The nodes with an id other than the failed one.
  abbrev pub without : String → List (DagNodeSpec A) → List (DagNodeSpec A)
  without id [] = []
  without id (s ∷ ss) = if str_eq s.id id then without id ss else s ∷ without id ss

  pub check_ids : List String → List (DagNodeSpec A) → Option Rejection
  check_ids seen [] = none
  check_ids seen (s ∷ ss) =
      let rest = check_ids (s.id ∷ seen) ss in
      if is_blank s.id
      then some empty_node_id
      else if elem s.id seen
      then some (duplicate_node s.id)
      else rest

  pub check_collisions : List String → List (DagNodeSpec A) → Option Rejection
  check_collisions known [] = none
  check_collisions known (s ∷ ss) =
      let rest = check_collisions known ss in if elem s.id known then some (collides s.id) else rest

  pub check_deps : List String → List (DagNodeSpec A) → Option Rejection
  unfolding bad_dep
  check_deps known [] = none
  check_deps known (s ∷ ss) =
      let rest = check_deps known ss in first_rejection (bad_dep known s.id s.depends_on) rest

  -- `combinedDeps`; no id of the two lists is the same once the checks before have passed.
  abbrev pub combined : String → List (DagNodeSpec A) → List (DagNodeSpec A) → List (DagNodeSpec A)
  combined id returned ss = without id ss ++ returned

  pub check_reuse : String → List (DagNodeSpec A) → Option Rejection
  check_reuse id returned =
      let reuse = count id (ids returned) in
      if reuse == 0
      then some no_reuse
      else if ltb 1 reuse
      then some reused_twice
      else elim (last_node returned) [
        | none ↦ some empty_replan
        | some last ↦ if str_eq last.id id then none else some not_last
      ]

  -- `ss` are the specs of all records. The last check is the loop of assertAcyclic, written again.
  unfoldable pub validate_replan :
      String → List (DagNodeSpec A) → List (DagNodeSpec A) → Option Rejection
  unfolding check_reuse check_ids check_collisions check_deps
  validate_replan id returned ss =
      let all = combined id returned ss in
      if length returned == 0
      then some empty_replan
      else first_rejection (check_reuse id returned) (
          first_rejection (check_ids [] returned) (
            first_rejection (check_collisions (ids ss) (without id returned)) (
              first_rejection (check_deps (ids all) all)
                (elim (assert_acyclic all) [ none ↦ none | some e ↦ some introduces_cycle ]))))

  -- The failed record takes the last node's spec, and starts afresh.
  unfoldable pub reuse_record : String → DagNodeSpec A → List (NodeRecord A) → List (NodeRecord A)
  reuse_record id last [] = []
  reuse_record id last (r ∷ rs) =
      (if str_eq r.spec.id id then new_record last else r) ∷ reuse_record id last rs

  abbrev pub fresh_records : List (DagNodeSpec A) → List (NodeRecord A)
  fresh_records [] = []
  fresh_records (s ∷ ss) = new_record s ∷ fresh_records ss

  -- The other returned nodes come last, as fresh records.
  unfoldable pub splice_replan :
      String → List (DagNodeSpec A) → List (NodeRecord A) → List (NodeRecord A)
  unfolding reuse_record
  splice_replan id returned rs = elim (last_node returned) [
    | none ↦ rs
    | some last ↦ reuse_record id last rs ++ fresh_records (without id returned)
  ]
