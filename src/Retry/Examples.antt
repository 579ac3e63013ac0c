-- ===== src/Retry/Examples.antt =====
-- A call that fails once and then resolves, and one that always fails.
use agent_sdk.Retry.Loop.{context_loop-retry}
use agent_sdk.Retry.{
  RetryConfig, retry, context_loop, Outcome, fresh_context, returned, rejected, resolved,
}
use agent_sdk.Common.{[], ◌∷◌, refl, some, none, ℕ, true, ◌≡◌, ltb, if◌then◌else◌, ◌==◌, arith}

abbrev plain : RetryConfig ℕ
plain = record {
  max_attempts = 3;
  base_delay_ms = 100;
  max_delay_ms = 150;
  exponential_base = 2;
  jitter = true;
  retry_on = none;
  retry_if = some (λ err. ltb err 5);
}

abbrev second_time : ℕ → Outcome ℕ ℕ
second_time attempt = if attempt == 0 then rejected 4 else resolved 7

abbrev middle : ℕ → ℕ
middle attempt = 500

runs_twice : retry plain second_time middle ≡ record { result = returned 7; delays = 400000 ∷ [] }
unfolding retry
runs_twice = refl

context_loop-retry_example :
    context_loop plain second_time middle 3 fresh_context ≡ some (retry plain second_time middle)
context_loop-retry_example = context_loop-retry plain second_time middle (omega arith)
