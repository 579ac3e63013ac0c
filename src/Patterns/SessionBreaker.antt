-- ===== src/Patterns/SessionBreaker.antt =====
-- src/patterns/circuit-breaker: the session's metrics, and the circuit that they trip. Costs are
-- natural numbers, of a unit that the caller chooses; times are given to each operation as `now`.
-- The log entries and `onTrip` are left out, which change nothing of the session.
pub mod Guard
pub mod Coherence
mod Examples
use mathlib.Core.Option.{get_or}
use agent_sdk.Common.{ℕ, Option, none, some, if◌then◌else◌, Bool, ◌+◌, ltb, true, ◌-◌, leb, false}
use agent_sdk.Resilience.Breaker.{CircuitState, closed, opened, half_open}

pub record Thresholds : Type 0 where
  pub max_tokens : ℕ
  pub max_consecutive_errors : ℕ
  pub max_action_count : ℕ
  pub max_elapsed_ms : ℕ
  pub max_cost : ℕ
  pub reset_after_ms : ℕ

-- Why the circuit tripped, with the values that the text gives.
pub data Violation : Type 0 where
  tokens_over errors_reached actions_over elapsed_over cost_over probe_failed : ℕ → Violation

pub record Session : Type 0 where
  pub state : CircuitState
  pub trip_reason : Option Violation
  pub opened_at : Option ℕ
  pub session_start : ℕ
  pub token_count : ℕ
  pub consecutive_errors : ℕ
  pub action_count : ℕ
  pub estimated_cost : ℕ

abbrev pub created : ℕ → Session
created now = record {
  state = closed;
  trip_reason = none;
  opened_at = none;
  session_start = now;
  token_count = 0;
  consecutive_errors = 0;
  action_count = 0;
  estimated_cost = 0;
}

pub do_trip : ℕ → Violation → Session → Session
do_trip now why s = elim s.state [
  | opened ↦ s
  | _ ↦ record s { state = opened; trip_reason = some why; opened_at = some now }
]

pub check_thresholds : Thresholds → ℕ → Session → Option Violation
check_thresholds t now s =
    if ltb t.max_tokens s.token_count
    then some (tokens_over s.token_count)
    else if leb t.max_consecutive_errors s.consecutive_errors
    then some (errors_reached s.consecutive_errors)
    else if ltb t.max_action_count s.action_count
    then some (actions_over s.action_count)
    else if ltb t.max_elapsed_ms (now - s.session_start)
    then some (elapsed_over (now - s.session_start))
    else if ltb t.max_cost s.estimated_cost
    then some (cost_over s.estimated_cost)
    else none

-- `checkThresholds()`, and `doTrip` on a violation; whether there was none.
pub trip_if_violated : Thresholds → ℕ → Session → Session × Bool
unfolding do_trip check_thresholds
trip_if_violated t now s = elim (check_thresholds t now s) [
  | none ↦ (s, true)
  | some why ↦ (do_trip now why s, false)
]

-- `openedAt !== undefined ? now - openedAt : resetAfterMs`
abbrev pub waited : Thresholds → ℕ → Option ℕ → ℕ
waited t now none = t.reset_after_ms
waited t now (some at) = now - at

-- `check`, and its `proceed`.
unfoldable pub check : Thresholds → ℕ → Session → Session × Bool
unfolding trip_if_violated
check t now s = elim s.state [
  | opened ↦
      if ltb (waited t now s.opened_at) t.reset_after_ms
      then (s, false)
      else (record s { state = half_open; consecutive_errors = 0 }, true)
  | half_open ↦ (s, true)
  | closed ↦ trip_if_violated t now s
]

-- What a record operation does after it has counted, in the closed state only.
pub trip_when_closed : Thresholds → ℕ → Session → Session
unfolding trip_if_violated
trip_when_closed t now s = elim s.state [ closed ↦ (trip_if_violated t now s).0 | _ ↦ s ]

pub record_tokens : Thresholds → ℕ → ℕ → Option ℕ → Session → Session
unfolding trip_when_closed
record_tokens t now count cost s = trip_when_closed t now (record s {
  token_count = s.token_count + count;
  estimated_cost = s.estimated_cost + get_or cost 0;
})

unfoldable pub record_error : Thresholds → ℕ → Session → Session
unfolding trip_when_closed do_trip
record_error t now s =
    let s' = record s { consecutive_errors = s.consecutive_errors + 1 } in
    elim s.state [
      | half_open ↦ do_trip now (probe_failed s'.consecutive_errors) s'
      | _ ↦ trip_when_closed t now s'
    ]

pub record_success : Session → Session
record_success s = elim s.state [
  | half_open ↦ record s {
    state = closed;
    consecutive_errors = 0;
    trip_reason = none;
    opened_at = none;
  }
  | _ ↦ record s { consecutive_errors = 0 }
]

pub record_action : Thresholds → ℕ → Session → Session
unfolding trip_when_closed
record_action t now s = trip_when_closed t now (record s { action_count = s.action_count + 1 })

-- `reset` leaves `sessionStart` as it is.
unfoldable pub reset : Session → Session
reset s = created s.session_start
