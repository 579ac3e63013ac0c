-- ===== src/Dag/Loop.antt =====
-- `execute`, less its branch for the replanner, which is in Dag/Replanning: the parts of a turn of the
-- loop. A turn is the code between two awaits; nodes in flight settle and are released between turns.
-- The loop's `for` over the records reads and writes them in place, so each pass carries the
-- records that it has passed and those that are left.
pub mod Evolution
pub mod Upstream
pub mod Slots
pub mod Progress
pub mod Settling
pub mod Steps
pub mod Moves
pub mod Safety
pub mod Inputs
mod Examples
use agent_sdk.Common.{
  ℕ, zero, suc, ◌+◌, Bool, true, false, ◌&&◌, ◌||◌, String, List, [], ◌∷◌, ◌++◌, Option, none, some,
  length, ltb, ◌==◌, if◌then◌else◌,
}
use agent_sdk.Dag.{
  NodeStatus, done, deferred, failed, Status, pending, running, settled, Reason, said, upstream,
  cancelled, unresolved, NodeRecord,
}
use agent_sdk.Dag.Records.{is_done, status_of, all_done}

abbrev pub is_pending : Status → Bool
is_pending pending = true
is_pending _ = false

-- `maxConcurrency && maxConcurrency > 0 ? maxConcurrency : Infinity`; none is Infinity.
abbrev pub below_limit : Option ℕ → ℕ → Bool
below_limit none n = true
below_limit (some limit) n = if limit == 0 then true else ltb n limit

-- `status === "failed" || status === "deferred"`, with the status
pub blocks : Option Status → Option NodeStatus
blocks (some (settled failed)) = some failed
blocks (some (settled deferred)) = some deferred
blocks _ = none

module _ {A : Type 0} where
  unfoldable pub any_pending : List (NodeRecord A) → Bool
  any_pending [] = false
  any_pending (r ∷ rs) = is_pending r.status || any_pending rs

  pub defer : Reason → NodeRecord A → NodeRecord A
  defer why r = record r { status = settled deferred; reason = some why }

  -- `for (const r of records) if (r.status === "pending") …` in the cancel and in the safety branch
  pub defer_pending : Reason → List (NodeRecord A) → List (NodeRecord A)
  unfolding defer
  defer_pending why [] = []
  defer_pending why (r ∷ rs) =
      (if is_pending r.status then defer why r else r) ∷ defer_pending why rs

  pub first_blocking_dep : List (NodeRecord A) → List String → Option Reason
  unfolding blocks
  first_blocking_dep rs [] = none
  first_blocking_dep rs (d ∷ ds) = elim (blocks (status_of d rs)) [
    | some s ↦ some (upstream d s)
    | none ↦ first_blocking_dep rs ds
  ]

  pub defer_for : NodeRecord A → Option Reason → NodeRecord A × Bool
  unfolding defer
  defer_for r none = (r, false)
  defer_for r (some why) = (defer why r, true)

  pub block : List (NodeRecord A) → NodeRecord A → NodeRecord A × Bool
  unfolding defer_for first_blocking_dep
  block rs r =
      if is_pending r.status
      then defer_for r (first_blocking_dep rs r.spec.depends_on)
      else (r, false)

  -- One pass of the fixpoint, and whether it changed a record.
  pub block_pass : List (NodeRecord A) → List (NodeRecord A) → List (NodeRecord A) × Bool
  unfolding block
  block_pass passed [] = (passed, false)
  block_pass passed (r ∷ left) =
      let (r', changed) = block (passed ++ (r ∷ left)) r in
      let (out, more) = block_pass (passed ++ (r' ∷ [])) left in (out, changed || more)

  -- `while (changed)`, with fuel.
  unfoldable pub block_all : ℕ → List (NodeRecord A) → List (NodeRecord A)
  unfolding block_pass
  block_all zero rs = rs
  block_all (suc fuel) rs =
      let (rs', changed) = block_pass [] rs in
      elim changed [ true ↦ block_all fuel rs' | false ↦ rs' ]

  pub is_ready : List (NodeRecord A) → NodeRecord A → Bool
  is_ready rs r = is_pending r.status && all_done rs r.spec.depends_on

  unfoldable pub any_ready : List (NodeRecord A) → List (NodeRecord A) → Bool
  unfolding is_ready
  any_ready rs [] = false
  any_ready rs (r ∷ left) = is_ready rs r || any_ready rs left

  -- The frontier is taken of `rs`, before the first dispatch; once the limit is reached, no more
  -- node is dispatched. The number is that of the in-flight nodes.
  unfoldable pub dispatch :
      Option ℕ → List (NodeRecord A) → ℕ → List (NodeRecord A) → List (NodeRecord A) × ℕ
  unfolding is_ready
  dispatch limit rs n [] = ([], n)
  dispatch limit rs n (r ∷ left) =
      let go = is_ready rs r && below_limit limit n in
      let (out, n') = dispatch limit rs (if go then suc n else n) left in
      ((if go then record r { status = running } else r) ∷ out, n')

-- `in_flight` is `running`, and the size of `inFlight`: a promise that has settled its record stays
-- there until its `finally` runs, and `finishing` counts those. `stopped` says that the loop ended, and
-- `write_rejected` that `journal.record` has rejected for some node so far.
pub record World (A : Type 0) : Type 0 where
  pub records : List (NodeRecord A)
  pub in_flight : ℕ
  pub finishing : ℕ
  pub aborted : Bool
  pub stopped : Bool
  pub write_rejected : Bool

module _ {A : Type 0} where
  -- What `catch` does to the record of a promise that is rejected.
  unfoldable pub caught : String → NodeRecord A → NodeRecord A
  caught text r = record r { status = settled failed; output = none; reason = some (said text) }

  -- The frontier's part of a turn, on records that no pass changes any more.
  unfoldable pub advance : Option ℕ → World A → World A
  unfolding any_ready dispatch defer_pending
  advance limit w =
      if any_ready w.records w.records
      then (let (rs, n) = dispatch limit w.records w.in_flight w.records in
          record w { records = rs; in_flight = n })
      else if w.in_flight == 0
      then record w { records = defer_pending unresolved w.records; stopped = true }
      else w
