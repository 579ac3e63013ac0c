-- ===== src/Retry/Delay.antt =====
-- The bounds of a delay.
use agent_sdk.Retry.{RetryConfig, calculate_delay, capped_delay}
use agent_sdk.Common.{◌≤◌, ℕ, ◌*◌, ◌+◌, arith, if◌then◌else◌, Bool-cases, inl, inr}
use native.Mathlib.Nat.{mul-le-mul_left}

scaled_low : (c r : ℕ) → 3000 * c ≤ c * (3000 + 2 * r)
scaled_low c r = omega (arith, mul-le-mul_left {m = 3000} {n = 3000 + 2 * r} c (omega arith))

scaled_high : (c r limit : ℕ) → c ≤ limit → r ≤ 1000 → c * (3000 + 2 * r) ≤ 5000 * limit
scaled_high c r limit h k =
    omega (arith, mul-le-mul_left {m = 3000 + 2 * r} {n = 5000} c (omega arith))

module _ {E : Type 0} (config : RetryConfig E) where
  -- With a random number below one, a delay is at least three quarters of the capped exponential; it is at
  -- most `maxDelayMs` without jitter, and at most five quarters of it with jitter.
  pub calculate_delay-le :
      (random attempt : ℕ)
      → random ≤ 1000
      → (3000 * capped_delay config attempt ≤ calculate_delay config random attempt)
        × (calculate_delay config random attempt
            ≤ (if config.jitter then 5000 else 4000) * config.max_delay_ms)
  unfolding calculate_delay
  calculate_delay-le random attempt h =
      let capped = capped_delay config attempt in
      let low : capped ≤ config.max_delay_ms = omega arith in
      elim (Bool-cases config.jitter) [
        | inl e ↦
            rw e (scaled_low capped random, scaled_high capped random config.max_delay_ms low h)
        | inr e ↦ rw e (omega arith, omega (arith, low))
      ]
