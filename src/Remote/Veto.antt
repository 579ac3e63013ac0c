-- ===== src/Remote/Veto.antt =====
-- InMemoryVetoChannel of src/remote/veto.ts. A waiter is a number, which stands for the promise that
-- an `await` returned; `resolved` lists the promises that are resolved, the last one first. A timer
-- is an operation of its own, which fires only if its waiter's signal has not cleared it.
pub mod Delivery
mod Examples
use agent_sdk.Common.{String, ℕ, Option, List, some, ◌∷◌, if◌then◌else◌, none, ◌==◌}
use agent_sdk.Common.Assoc.{Assoc, get, set, delete}

pub record VetoSignal : Type 0 where
  pub call_id : String
  pub by : String
  pub reason : Option String

pub record Channel : Type 0 where
  pub buffered : Assoc VetoSignal
  pub waiters : Assoc ℕ
  pub resolved : List (ℕ × Option VetoSignal)

unfoldable pub submit : VetoSignal → Channel → Channel
submit signal c = elim (get signal.call_id c.waiters) [
  | some waiter ↦ record c {
    waiters = delete signal.call_id c.waiters;
    resolved = (waiter, some signal) ∷ c.resolved;
  }
  | none ↦ record c { buffered = set signal.call_id signal c.buffered }
]

-- `await(callId, windowMs)`; a waiter of the same id that is there already is replaced.
unfoldable pub await : ℕ → String → ℕ → Channel → Channel
await waiter call_id window_ms c = elim (get call_id c.buffered) [
  | some signal ↦ record c {
    buffered = delete call_id c.buffered;
    resolved = (waiter, some signal) ∷ c.resolved;
  }
  | none ↦
      if window_ms == 0
      then record c { resolved = (waiter, none) ∷ c.resolved }
      else record c { waiters = set call_id waiter c.waiters }
]

-- The timer of `waiter` fires: it looks for any waiter of the id.
unfoldable pub time_out : ℕ → String → Channel → Channel
time_out waiter call_id c = elim (get call_id c.waiters) [
  | none ↦ c
  | some _ ↦ record c { waiters = delete call_id c.waiters; resolved = (waiter, none) ∷ c.resolved }
]
