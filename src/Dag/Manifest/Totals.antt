-- ===== src/Dag/Manifest/Totals.antt =====
-- The summary of a run's manifest.
use agent_sdk.Common.{
  Bool, true, false, if◌then◌else◌, suc, ◌⊎◌, inl, inr, Bool-cases, ◌≡◌, ◌∷◌, ◌+◌, arith, ◌↔◌, ◌<◌,
  [], refl, ℕ,
}
use agent_sdk.Dag.{
  NodeStatus, Status, pending, running, settled, done, deferred, failed, NodeRecord, List,
}
use agent_sdk.Dag.Manifest.{entries, how_many, summarize, workflow_status, run_done, length, ◌≡◌}
use agent_sdk.Dag.Loop.Slots.{count_running}

abbrev equal_node_status : NodeStatus → NodeStatus → Bool
equal_node_status done done = true
equal_node_status deferred deferred = true
equal_node_status failed failed = true
equal_node_status _ _ = false

abbrev equal_status : Status → Status → Bool
equal_status pending pending = true
equal_status running running = true
equal_status (settled s) (settled s') = equal_node_status s s'
equal_status _ _ = false

equal_status→eq : (s : Status) → equal_status s (settled done) ≡ true → s ≡ settled done
equal_status→eq (settled done) h = refl
equal_status→eq (settled failed) h = cc
equal_status→eq (settled deferred) h = cc
equal_status→eq pending h = cc
equal_status→eq running h = cc

module _ {A : Type 0} where
  length-entries : (rs : List (NodeRecord A)) → length (entries rs) ≡ length rs
  length-entries [] = refl
  length-entries (r ∷ rs) = omega (arith, length-entries rs)

  parts :
      (rs : List (NodeRecord A))
      → count_running rs ≡ 0
      → how_many done (entries rs) + how_many deferred (entries rs) + how_many failed (entries rs)
        ≡ length rs
  parts [] z = refl
  parts (r ∷ rs) z = ground (arith, parts rs)

  -- How many records have this status.
  pub tally : Status → List (NodeRecord A) → ℕ
  tally s [] = 0
  tally s (r ∷ rs) = let rest = tally s rs in if equal_status r.status s then suc rest else rest

  -- Some record is done.
  abbrev pub HasDone : List (NodeRecord A) → Type 0
  HasDone [] = ⊥
  HasDone (r ∷ rs) = (r.status ≡ settled done) ⊎ HasDone rs

  done_tally : (rs : List (NodeRecord A)) → how_many done (entries rs) ≡ tally (settled done) rs
  unfolding tally
  done_tally [] = refl
  done_tally (r ∷ rs) = ground (arith, done_tally rs)

  failed_tally :
      (rs : List (NodeRecord A)) → how_many failed (entries rs) ≡ tally (settled failed) rs
  unfolding tally
  failed_tally [] = refl
  failed_tally (r ∷ rs) = ground (arith, failed_tally rs)

  deferred_tally :
      (rs : List (NodeRecord A))
      → how_many deferred (entries rs) ≡ tally (settled deferred) rs + tally pending rs
  unfolding tally
  deferred_tally [] = refl
  deferred_tally (r ∷ rs) = ground (arith, deferred_tally rs)

  tally-HasDone : (rs : List (NodeRecord A)) → 0 < tally (settled done) rs → HasDone rs
  unfolding tally
  tally-HasDone [] h = absurd (omega arith)
  tally-HasDone (r ∷ rs) h = elim (Bool-cases (equal_status r.status (settled done))) [
    | inl e ↦ inl (equal_status→eq r.status e)
    | inr e ↦ inr (tally-HasDone rs (ground arith))
  ]

  HasDone-tally : (rs : List (NodeRecord A)) → HasDone rs → 0 < tally (settled done) rs
  unfolding tally
  HasDone-tally [] h = absurd h
  HasDone-tally (r ∷ rs) (inl e) = ground arith
  HasDone-tally (r ∷ rs) (inr h) = ground (arith, HasDone-tally rs h)

  -- What the manifest says of records of which none runs.
  abbrev pub AddsUp : List (NodeRecord A) → Type 0
  AddsUp rs =
      (let s = summarize (entries rs) in
        (s.done_count + s.deferred_count + s.failed_count ≡ s.total)
        × (s.total ≡ length rs)
        × (s.done_count ≡ tally (settled done) rs)
        × (s.failed_count ≡ tally (settled failed) rs)
        × (s.deferred_count ≡ tally (settled deferred) rs + tally pending rs)
        × ((workflow_status (entries rs) ≡ run_done) ↔ HasDone rs))

  status-HasDone :
      (rs : List (NodeRecord A)) → (workflow_status (entries rs) ≡ run_done) ↔ HasDone rs
  unfolding summarize workflow_status
  status-HasDone rs = (
    λ h. tally-HasDone rs (let d = done_tally rs in ground arith),
    λ h. (let d = done_tally rs in let some_done = HasDone-tally rs h in ground arith),
  )

  pub entries-AddsUp : (rs : List (NodeRecord A)) → count_running rs ≡ 0 → AddsUp rs
  unfolding summarize
  entries-AddsUp rs z = (
    omega (arith, parts rs z, length-entries rs),
    length-entries rs,
    done_tally rs,
    failed_tally rs,
    deferred_tally rs,
    status-HasDone rs,
  )
