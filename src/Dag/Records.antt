-- ===== src/Dag/Records.antt =====
-- The scheduler's records as a list: `byId` finds the record that has an id.
use agent_sdk.Common.{
  ℕ, Bool, true, false, ◌&&◌, String, List, [], ◌∷◌, Option, none, some, str_eq, ◌≡◌, refl, arith,
  if◌then◌else◌,
}
use agent_sdk.Dag.{done, Status, running, settled, NodeRecord, DagNodeSpec}

-- `r.status === "done"`
abbrev pub is_done : Status → Bool
is_done (settled done) = true
is_done _ = false

abbrev pub is_settled : Status → Bool
is_settled (settled s) = true
is_settled _ = false

abbrev pub one_running : Status → ℕ
one_running running = 1
one_running _ = 0

module _ {A : Type 0} where
  abbrev pub specs : List (NodeRecord A) → List (DagNodeSpec A)
  specs [] = []
  specs (r ∷ rs) = r.spec ∷ specs rs

  -- Some node has the id.
  abbrev pub has_id : String → List (DagNodeSpec A) → Bool
  has_id d [] = false
  has_id d (s ∷ ss) = if str_eq s.id d then true else has_id d ss

  -- `byId.get(id)`
  unfoldable pub find : String → List (NodeRecord A) → Option (NodeRecord A)
  find id [] = none
  find id (r ∷ rs) = if str_eq r.spec.id id then some r else find id rs

  -- `byId.get(id)?.status`
  unfoldable pub status_of : String → List (NodeRecord A) → Option Status
  unfolding find
  status_of id rs = elim (find id rs) [ none ↦ none | some r ↦ some r.status ]

  -- `byId.get(id)?.status === "done"`
  unfoldable pub is_done_in : List (NodeRecord A) → String → Bool
  unfolding status_of
  is_done_in rs id = elim (status_of id rs) [ none ↦ false | some s ↦ is_done s ]

  -- `deps.every((d) => byId.get(d)?.status === "done")`
  unfoldable pub all_done : List (NodeRecord A) → List String → Bool
  unfolding is_done_in
  all_done rs [] = true
  all_done rs (d ∷ ds) = is_done_in rs d && all_done rs ds

  pub all_done-nil : (rs : List (NodeRecord A)) → all_done rs [] ≡ true
  unfolding all_done
  all_done-nil rs = refl

  pub status_of-cons :
      (r : NodeRecord A) (rs : List (NodeRecord A)) (id : String)
      → status_of id (r ∷ rs) ≡ (if str_eq r.spec.id id then some r.status else status_of id rs)
  unfolding status_of
  status_of-cons r rs id = ground arith

  pub is_done_in-cons :
      (r : NodeRecord A) (rs : List (NodeRecord A)) (id : String)
      → is_done_in (r ∷ rs) id
        ≡ (if str_eq r.spec.id id then is_done r.status else is_done_in rs id)
  unfolding is_done_in
  is_done_in-cons r rs id = ground arith

pub status_of-nil : (A : Type 0) (id : String) → status_of {A = A} id [] ≡ none
unfolding status_of
status_of-nil A id = refl

pub is_done_in-nil : (A : Type 0) (id : String) → is_done_in {A = A} [] id ≡ false
unfolding is_done_in
is_done_in-nil A id = refl
