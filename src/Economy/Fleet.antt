-- ===== src/Economy/Fleet.antt =====
-- src/economy/circuit-breaker.ts: a breaker on the spending of a fleet in a rolling window. Costs are whole
-- numbers of a small unit of money, and thresholds in the same unit.
pub mod Window
pub mod Books
pub mod Ledger
pub mod Probe
mod Examples
use agent_sdk.Common.{
  ℕ, ◌+◌, Bool, true, false, List, [], ◌∷◌, ◌++◌, Option, none, some, leb, ltb, if◌then◌else◌,
}
use agent_sdk.Resilience.Breaker.{CircuitState, closed, opened, half_open}

pub record CircuitBreakerConfig : Type 0 where
  pub threshold_usd : ℕ
  pub window_ms : ℕ
  pub cooldown_ms : ℕ

pub record SpendEntry : Type 0 where
  pub ts : ℕ
  pub cost_usd : ℕ

pub record FleetBreaker : Type 0 where
  pub state : CircuitState
  pub opened_at : Option ℕ
  pub half_open_consumed : Bool
  pub window : List SpendEntry

abbrev pub fresh : FleetBreaker
fresh = record { state = closed; opened_at = none; half_open_consumed = false; window = [] }

-- `e.ts < now - windowMs`
abbrev pub is_stale : CircuitBreakerConfig → ℕ → SpendEntry → Bool
is_stale o now e = ltb (e.ts + o.window_ms) now

-- `_evict`: the stale entries at the front go.
pub evict : CircuitBreakerConfig → ℕ → List SpendEntry → List SpendEntry
evict o now [] = []
evict o now (e ∷ es) = let rest = evict o now es in if is_stale o now e then rest else e ∷ es

-- `_windowSpend`
abbrev pub total : List SpendEntry → ℕ
total [] = 0
total (e ∷ es) = e.cost_usd + total es

abbrev pub evicted : CircuitBreakerConfig → ℕ → FleetBreaker → FleetBreaker
unfolding evict
evicted o now b = record b { window = evict o now b.window }

-- The getter `windowSpend`.
unfoldable pub window_spend : CircuitBreakerConfig → ℕ → FleetBreaker → FleetBreaker × ℕ
unfolding evict
window_spend o now b = (evicted o now b, total (evicted o now b).window)

-- `_openedAt !== undefined && now - _openedAt >= cooldownMs`
abbrev pub is_cool : CircuitBreakerConfig → ℕ → Option ℕ → Bool
is_cool o now none = false
is_cool o now (some t) = leb (t + o.cooldown_ms) now

abbrev pub wake : CircuitBreakerConfig → ℕ → FleetBreaker → FleetBreaker
wake o now b = elim b.state [
  | opened ↦
      (if is_cool o now b.opened_at
        then record b { state = half_open; half_open_consumed = false }
        else b)
  | half_open ↦ b
  | closed ↦ b
]

abbrev pub admit : CircuitBreakerConfig → FleetBreaker → FleetBreaker × Bool
admit o b = elim b.state [
  | opened ↦ (b, false)
  | half_open ↦
      (if b.half_open_consumed then (b, false) else (record b { half_open_consumed = true }, true))
  | closed ↦ (b, leb (total b.window) o.threshold_usd)
]

unfoldable pub can_proceed : CircuitBreakerConfig → ℕ → FleetBreaker → FleetBreaker × Bool
unfolding evict
can_proceed o now b = admit o (wake o now (evicted o now b))

abbrev pub trip : ℕ → FleetBreaker → FleetBreaker
trip now b = record b { state = opened; opened_at = some now; half_open_consumed = false }

abbrev pub judge_spend : CircuitBreakerConfig → ℕ → FleetBreaker → FleetBreaker
judge_spend o now b = elim b.state [
  | opened ↦ b
  | half_open ↦
      (if ltb o.threshold_usd (total b.window)
        then trip now b
        else record b { state = closed; opened_at = none; half_open_consumed = false })
  | closed ↦ (if ltb o.threshold_usd (total b.window) then trip now b else b)
]

abbrev pub noted : ℕ → ℕ → FleetBreaker → FleetBreaker
noted now cost b = record b { window = b.window ++ (record { ts = now; cost_usd = cost } ∷ []) }

unfoldable pub record_cost : CircuitBreakerConfig → ℕ → ℕ → FleetBreaker → FleetBreaker
unfolding evict
record_cost o now cost b = judge_spend o now (evicted o now (noted now cost b))

abbrev pub reset : FleetBreaker → FleetBreaker
reset b = fresh
