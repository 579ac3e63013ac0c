-- ===== src/Patterns/SessionBreaker/Guard.antt =====
-- When the session may go on.
use agent_sdk.Common.{◌≤◌, ◌≡◌, ◌<◌, none, true, ◌-◌, ◌↔◌, arith, false}
use agent_sdk.Resilience.Breaker.{closed, half_open}
use agent_sdk.Patterns.SessionBreaker.{
  Thresholds, Session, check, check_thresholds, trip_if_violated, record_success, reset, ℕ,
}

-- Every metric is within its threshold.
abbrev pub WithinThresholds : Thresholds → ℕ → Session → Type 0
WithinThresholds t now s =
    (s.token_count ≤ t.max_tokens)
    × (s.consecutive_errors < t.max_consecutive_errors)
    × (s.action_count ≤ t.max_action_count)
    × (now - s.session_start ≤ t.max_elapsed_ms)
    × (s.estimated_cost ≤ t.max_cost)

check_thresholds-none :
    (t : Thresholds) (now : ℕ) (s : Session)
    → (check_thresholds t now s ≡ none) ↔ WithinThresholds t now s
unfolding check_thresholds
check_thresholds-none t now s = (λ h. ground arith, λ h. ground arith)

-- A closed session may go on exactly if every metric is within its threshold.
pub check_closed_iff :
    (t : Thresholds) (now : ℕ) (s : Session)
    → s.state ≡ closed
    → ((check t now s).1 ≡ true) ↔ WithinThresholds t now s
unfolding check trip_if_violated
check_closed_iff t now s c =
    let q = check_thresholds-none t now s in
    (λ h. q.0 (ground arith), λ h. let e = q.1 h in ground (arith, e))

-- Once the session has lasted longer than its limit, a reset does not help: the next check refuses.
pub reset_keeps_elapsed :
    (t : Thresholds) (now : ℕ) (s : Session)
    → t.max_elapsed_ms < now - s.session_start
    → (check t now (reset s)).1 ≡ false
unfolding check reset trip_if_violated check_thresholds
reset_keeps_elapsed t now s h = ground arith

-- After a successful probe the circuit closes, but a session that has spent more tokens than it may
-- is refused by the next check, at whatever time.
pub success_retrips :
    (t : Thresholds) (now : ℕ) (s : Session)
    → s.state ≡ half_open
    → t.max_tokens < s.token_count
    → ((record_success s).state ≡ closed) × ((check t now (record_success s)).1 ≡ false)
unfolding check record_success trip_if_violated check_thresholds
success_retrips t now s c h = ground arith
