-- ===== src/Resilience/Breaker.antt =====
-- src/resilience/circuit-breaker.ts. A call of the wrapped operation is two steps of the breaker:
-- `enter`, before the operation starts, and `settle`, when its promise settles. The clock's
-- readings are arguments of the steps, in milliseconds; the operation's outcome is one, too.
pub mod Laws
pub mod Interleaving
mod Examples
use agent_sdk.Common.{ℕ, suc, ◌+◌, ◌-◌, Bool, true, false, List, [], ◌∷◌, ltb, leb, if◌then◌else◌}

pub data CircuitState : Type 0 where
  closed opened half_open : CircuitState

pub record CircuitBreakerOptions : Type 0 where
  pub failure_threshold : ℕ
  pub reset_after_ms : ℕ

pub record Breaker : Type 0 where
  pub state : CircuitState
  pub failure_count : ℕ
  pub opened_at : ℕ

-- also what `reset()` restores
abbrev pub initial : Breaker
initial = record { state = closed; failure_count = 0; opened_at = 0 }

-- What the wrapper does with a call: it starts the operation, or it throws CircuitOpenError, which
-- carries the time left.
pub data Admission : Type 0 where
  admitted : Admission
  circuit_open : ℕ → Admission

-- How the operation's promise settles; a rejection carries `isFailure(err)`.
pub data Outcome : Type 0 where
  success : Outcome
  failure : Bool → Outcome

-- `elapsed < resetAfterMs` is written without a subtraction.
unfoldable pub enter : CircuitBreakerOptions → ℕ → Breaker → Breaker × Admission
enter o now b = elim b.state [
  | opened ↦
      let until = b.opened_at + o.reset_after_ms in
      if ltb now until
      then (b, circuit_open (until - now))
      else (record b { state = half_open }, admitted)
  | _ ↦ (b, admitted)
]

pub on_success : Breaker → Breaker
on_success b = elim b.state [
  | half_open ↦ record b { state = closed; failure_count = 0 }
  | _ ↦ record b { failure_count = 0 }
]

pub on_failure : CircuitBreakerOptions → ℕ → Breaker → Breaker
on_failure o now b = elim b.state [
  | half_open ↦ record b { state = opened; opened_at = now }
  | _ ↦
      let count = b.failure_count + 1 in
      if leb o.failure_threshold count
      then record b { state = opened; failure_count = count; opened_at = now }
      else record b { failure_count = count }
]

pub settle : CircuitBreakerOptions → ℕ → Outcome → Breaker → Breaker
unfolding on_success on_failure
settle o now success b = on_success b
settle o now (failure true) b = on_failure o now b
settle o now (failure false) b = b

pub reset : Breaker → Breaker
reset b = initial

-- A whole call with no other call in between: it enters at `now`, and settles at `later`.
pub run : CircuitBreakerOptions → ℕ → ℕ → Outcome → Breaker → Breaker × Admission
unfolding enter settle
run o now later out b =
    let (b', a) = enter o now b in
    elim a [
      | admitted ↦ (settle o later out b', admitted)
      | circuit_open ms ↦ (b', circuit_open ms)
    ]
