-- ===== src/Dag/Loop/Inputs.antt =====
-- What a running node is given of its dependencies.
use agent_sdk.Common.{
  ◌++◌, ◌≡◌, ◌∷◌, if◌then◌else◌, some, true, elem, str_eq-cases, [], Option-cases, arith, inl, ap,
  inr, refl, subst,
}
use agent_sdk.Common.Assoc.{Assoc, get, set, get-set}
use agent_sdk.Dag.{NodeRecord, running, settled, done, List, Option, String}
use agent_sdk.Dag.Records.{find, is_done_in, all_done, status_of}
use agent_sdk.Dag.Run.{node_inputs, output_of}
use agent_sdk.Dag.Loop.{◌++◌}
use agent_sdk.Dag.Loop.Upstream.{UpstreamDone}

module _ {A : Type 0} where
  get-node_inputs :
      (rs : List (NodeRecord A)) (ds : List String) (acc : Assoc (Option A)) (d : String)
      → get d (node_inputs rs ds acc) ≡ (if elem d ds then some (output_of rs d) else get d acc)
  unfolding node_inputs
  get-node_inputs rs [] acc d = refl
  get-node_inputs rs (x ∷ ds) acc d = elim (str_eq-cases x d) [
    | inl (p, e, e') ↦ ground (
      arith,
      get-node_inputs rs ds (set x (output_of rs x) acc) d,
      get-set x d (output_of rs x) acc,
      ap (output_of rs) p,
    )
    | inr (p, e, e') ↦ ground (
      arith,
      get-node_inputs rs ds (set x (output_of rs x) acc) d,
      get-set x d (output_of rs x) acc,
    )
  ]

  -- The record that is found for an id, done, with what a node that depends on it is given.
  abbrev pub DoneInput : List (NodeRecord A) → List String → String → Type 0
  DoneInput rs ds d =
      (u : NodeRecord A) × (find d rs ≡ some u)
      × (u.status ≡ settled done)
      × (get d (node_inputs rs ds []) ≡ some u.output)

  done_record :
      (rs : List (NodeRecord A)) (d : String)
      → is_done_in rs d ≡ true
      → (u : NodeRecord A) × (find d rs ≡ some u) × (u.status ≡ settled done)
  unfolding is_done_in status_of
  done_record rs d h = elim (Option-cases (find d rs)) [
    | inl n ↦ absurd (ground arith)
    | inr (u, e) ↦ (u, e, ground arith)
  ]

  all_done-elem :
      (rs : List (NodeRecord A)) (ds : List String) (d : String)
      → all_done rs ds ≡ true
      → elem d ds ≡ true
      → is_done_in rs d ≡ true
  unfolding all_done
  all_done-elem rs [] d h m = absurd (ground arith)
  all_done-elem rs (x ∷ ds) d h m = elim (str_eq-cases x d) [
    | inl (p, e, e') ↦ ground (arith, ap (is_done_in rs) p)
    | inr (p, e, e') ↦ ground (arith, all_done-elem rs ds d)
  ]

  upstream_at :
      (rs before after : List (NodeRecord A)) (r : NodeRecord A)
      → UpstreamDone rs (before ++ (r ∷ after))
      → r.status ≡ running
      → all_done rs r.spec.depends_on ≡ true
  upstream_at rs [] after r u h = u.0 (rw h)
  upstream_at rs (b ∷ before) after r u h = upstream_at rs before after r u.1 h

  -- A running node among records that keep the upstream rule finds each of its dependencies done.
  pub inputs_of_running :
      (rs before after : List (NodeRecord A)) (r : NodeRecord A) (d : String)
      → UpstreamDone rs rs
      → rs ≡ before ++ (r ∷ after)
      → r.status ≡ running
      → elem d r.spec.depends_on ≡ true
      → DoneInput rs r.spec.depends_on d
  unfolding output_of
  inputs_of_running rs before after r d u at h m =
      let ready =
        upstream_at rs before after r (subst (λ (l : List (NodeRecord A)). UpstreamDone rs l) at u)
          h in
      let (up, found, is) = done_record rs d (all_done-elem rs r.spec.depends_on d ready m) in
      (up, found, is, ground (arith, get-node_inputs rs r.spec.depends_on [] d, found))
