-- ===== src/Dag/Validate.antt =====
-- What `runDag` checks before it runs a node: buildRecords, assertNoMissingDeps,
-- assertNoMapOverMisuse, assertAcyclic (Kahn's algorithm) and the verifier that sampling needs.
-- A check returns the error that it throws, if any. The maps of assertAcyclic are read with a
-- default only, so they are functions from ids; of a record the checks read its spec alone.
-- `indegree - 1` stops at 0, where the source's reaches -1; neither is pushed, since the test is
-- that the degree was 1.
pub mod Degrees
pub mod Kahn
pub mod Drain
pub mod Rank
pub mod Acyclic
pub mod Accepted
mod Examples
use mathlib.Core.Option.{get_or}
use agent_sdk.Common.{
  ◌⊎◌, [], if◌then◌else◌, inr, ◌∷◌, length, ◌&&◌, inl, elem, update, zero, suc, ◌==◌, ltb, not,
  str_eq, ◌++◌, ◌-◌, ◌+◌, ◌||◌,
}
use agent_sdk.Common.Text.{is_blank}
use agent_sdk.Dag.{
  DagNodeSpec, NodeRecord, pending, String, none, List, ℕ, Option, Bool, some, false,
}

-- `unfinished` is no error of the source: the model's loop is out of fuel.
pub data SchedulerError : Type 0 where
  no_adr no_run_id no_nodes empty_id no_verifier unfinished : SchedulerError
  duplicate_id self_dep : String → SchedulerError
  unknown_dep map_over_misuse : String → String → SchedulerError
  cycle : List String → SchedulerError

pub missing_dep : List String → String → List String → Option SchedulerError
missing_dep known id [] = none
missing_dep known id (d ∷ ds) =
    let rest = missing_dep known id ds in
    if elem d known
    then (if str_eq d id then some (self_dep id) else rest)
    else some (unknown_dep id d)

pub add_dependents : String → List String → (String → List String) → String → List String
add_dependents id [] m = m
add_dependents id (d ∷ ds) m = add_dependents id ds (update m d (m d ++ (id ∷ [])))

-- The first error of two checks.
abbrev pub first_error : Option SchedulerError → Option SchedulerError → Option SchedulerError
first_error (some e) rest = some e
first_error none rest = rest

module _ {A : Type 0} where
  abbrev pub new_record : DagNodeSpec A → NodeRecord A
  new_record s = record {
    spec = s;
    status = pending;
    reason = none;
    output = none;
    attempts = 0;
    retries_used = 0;
  }

  abbrev pub add_record :
      NodeRecord A → SchedulerError ⊎ List (NodeRecord A) → SchedulerError ⊎ List (NodeRecord A)
  add_record r (inl e) = inl e
  add_record r (inr rs) = inr (r ∷ rs)

  -- `seen` holds the ids of the nodes that are passed.
  pub build_records : List String → List (DagNodeSpec A) → SchedulerError ⊎ List (NodeRecord A)
  build_records seen [] = inr []
  build_records seen (s ∷ ss) =
      let rest = build_records (s.id ∷ seen) ss in
      if is_blank s.id
      then inl empty_id
      else if elem s.id seen
      then inl (duplicate_id s.id)
      else add_record (new_record s) rest

  abbrev pub ids : List (DagNodeSpec A) → List String
  ids [] = []
  ids (s ∷ ss) = s.id ∷ ids ss

  pub assert_no_missing_deps : List String → List (DagNodeSpec A) → Option SchedulerError
  unfolding missing_dep
  assert_no_missing_deps known [] = none
  assert_no_missing_deps known (s ∷ ss) =
      let rest = assert_no_missing_deps known ss in
      elim (missing_dep known s.id s.depends_on) [ some e ↦ some e | none ↦ rest ]

  pub assert_no_map_over_misuse : List (DagNodeSpec A) → Option SchedulerError
  assert_no_map_over_misuse [] = none
  assert_no_map_over_misuse (s ∷ ss) =
      let rest = assert_no_map_over_misuse ss in
      elim s.map_over [
        | none ↦ rest
        | some dep ↦ if elem dep s.depends_on then rest else some (map_over_misuse s.id dep)
      ]

  -- `indegree`, from the map `f` on
  pub indegrees : List (DagNodeSpec A) → (String → ℕ) → String → ℕ
  indegrees [] f = f
  indegrees (s ∷ ss) f = indegrees ss (update f s.id (length s.depends_on))

  -- `dependents`, from the map `m` on
  pub dependents : List (DagNodeSpec A) → (String → List String) → String → List String
  unfolding add_dependents
  dependents [] m = m
  dependents (s ∷ ss) m = dependents ss (add_dependents s.id s.depends_on m)

-- The ids at which a degree passes the test.
pub having : (ℕ → Bool) → (String → ℕ) → List String → List String
having test f [] = []
having test f (k ∷ ks) = if test (f k) then k ∷ having test f ks else having test f ks

-- `for (const child of dependents.get(id) ?? [])`
pub relax : List String → (String → ℕ) → List String → (String → ℕ) × List String
relax [] f q = (f, q)
relax (c ∷ cs) f q = relax cs (update f c (f c - 1)) (if f c == 1 then q ++ (c ∷ []) else q)

-- `while (queue.length > 0)`, with fuel; the degrees at its end, and `placed`.
pub drain : (String → List String) → ℕ → (String → ℕ) → List String → ℕ → Option ((String → ℕ) × ℕ)
unfolding relax
drain m fuel f [] placed = some (f, placed)
drain m zero f (id ∷ q) placed = none
drain m (suc fuel) f (id ∷ q) placed =
    let (f', q') = relax (m id) f q in drain m fuel f' q' (placed + 1)

module _ {A : Type 0} where
  -- The error names the nodes in the records' order; the source sorts them.
  unfoldable pub assert_acyclic : List (DagNodeSpec A) → Option SchedulerError
  unfolding indegrees dependents having drain
  assert_acyclic ss =
      let f = indegrees ss (λ _. 0) in
      let m = dependents ss (λ _. []) in
      elim (drain m (length ss) f (having (λ n. n == 0) f (ids ss)) 0) [
        | none ↦ some unfinished
        | some (f', placed) ↦
            if placed == length ss then none else some (cycle (having (λ n. ltb 0 n) f' (ids ss)))
      ]

  pub uses_sampling : List (DagNodeSpec A) → Bool
  uses_sampling [] = false
  uses_sampling (s ∷ ss) = ltb 1 (get_or s.samples 1) || uses_sampling ss

  pub check_graph : Bool → List (DagNodeSpec A) → Option SchedulerError
  unfolding assert_no_missing_deps assert_no_map_over_misuse assert_acyclic uses_sampling
  check_graph has_verifier ss = first_error (assert_no_missing_deps (ids ss) ss) (
      first_error (assert_no_map_over_misuse ss) (
        first_error (assert_acyclic ss)
          (if uses_sampling ss && not has_verifier then some no_verifier else none)))

  -- `runDag` up to its root hash: the records that `execute` starts from.
  unfoldable pub validate :
      String → String → Bool → List (DagNodeSpec A) → SchedulerError ⊎ List (NodeRecord A)
  unfolding build_records check_graph is_blank
  validate adr run_id has_verifier ss =
      if is_blank adr
      then inl no_adr
      else if is_blank run_id
      then inl no_run_id
      else if length ss == 0
      then inl no_nodes
      else elim (build_records [] ss) [
        | inl e ↦ inl e
        | inr rs ↦ elim (check_graph has_verifier ss) [ some e ↦ inl e | none ↦ inr rs ]
      ]
