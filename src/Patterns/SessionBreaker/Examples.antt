-- ===== src/Patterns/SessionBreaker/Examples.antt =====
-- A session that may use 100 tokens and make one error.
use agent_sdk.Common.{◌≡◌, arith, refl}
use agent_sdk.Resilience.Breaker.{half_open}
use agent_sdk.Patterns.SessionBreaker.{Session, Thresholds, created, check, record_error}
use agent_sdk.Patterns.SessionBreaker.Coherence.{
  here, next, fails, checks, IsCoherent, Reach-IsCoherent,
}

abbrev thresholds : Thresholds
thresholds = record {
  max_tokens = 100;
  max_consecutive_errors = 1;
  max_action_count = 10;
  max_elapsed_ms = 1000;
  max_cost = 50;
  reset_after_ms = 60;
}

-- An error at 20 trips the circuit, and the check at 80 lets a probe through.
abbrev probed : Session
probed = (check thresholds 80 (record_error thresholds 20 (created 10))).0

Reach-IsCoherent_example : IsCoherent 80 probed
Reach-IsCoherent_example =
    Reach-IsCoherent thresholds 10 (next 80 (next 20 here (omega arith) fails) (omega arith) checks)

probed_half_open : probed.state ≡ half_open
unfolding check record_error
probed_half_open = refl

abbrev overspent : Session
overspent = record (created 10) { state = half_open; token_count = 101 }
