-- ===== src/Retry/Loop.antt =====
-- `retry` and the documented loop over a RetryContext do the same.
use agent_sdk.Retry.{
  RetryConfig, Outcome, RetryContext, resolved, context_loop, retry_from, rejected, handle_error,
  retry, fresh_context, wants_retry, should_retry, after_sleep, Result, threw, calculate_delay,
  slept,
}
use agent_sdk.Common.{
  sym, ap, ◌∙◌, refl, true, false, leb, ◌≡◌, inl, inr, ℕ, ◌⊎◌, ◌+◌, arith, Option, zero, suc, some,
  ltb, Bool-cases, ◌<◌, none, [], if◌then◌else◌,
}

module _ {T E : Type 0} (config : RetryConfig E) (fn : ℕ → Outcome T E) (random : ℕ → ℕ) where
  abbrev context_at : ℕ → RetryContext
  context_at attempt = record { attempt_count = attempt; is_exhausted = false }

  Outcome-cases :
      (o : Outcome T E) → ((v : T) × (o ≡ resolved v)) ⊎ ((err : E) × (o ≡ rejected err))
  Outcome-cases (resolved v) = inl (v, refl)
  Outcome-cases (rejected err) = inr (err, refl)

  handle_error-sleeps :
      (attempt : ℕ) (err : E)
      → leb config.max_attempts (suc attempt) ≡ false
      → wants_retry config err ≡ true
      → handle_error config fn random (context_at attempt) err ≡ (context_at (suc attempt), none)
  unfolding handle_error should_retry
  handle_error-sleeps attempt err more again = rw (more, again) refl

  handle_error-stops :
      (attempt : ℕ) (err : E)
      → leb config.max_attempts (suc attempt) ≡ false
      → wants_retry config err ≡ false
      → (handle_error config fn random (context_at attempt) err).1 ≡ some (threw err)
  unfolding handle_error should_retry
  handle_error-stops attempt err more stop = rw (more, stop) refl

  context_loop-sleeps :
      (fuel attempt : ℕ) (err : E)
      → ltb attempt config.max_attempts ≡ true
      → fn attempt ≡ rejected err
      → handle_error config fn random (context_at attempt) err ≡ (context_at (suc attempt), none)
      → context_loop config fn random (suc fuel) (context_at attempt)
        ≡ after_sleep config fn random
            (calculate_delay config (random attempt) attempt)
            (context_loop config fn random fuel (context_at (suc attempt)))
  unfolding context_loop
  context_loop-sleeps fuel attempt err room e h =
      let delay = calculate_delay config (random attempt) attempt in
      rw (room, e, ap (λ (o : RetryContext × Option (Result T E)). o.1) h)
        (ap
          (λ (o : RetryContext × Option (Result T E)).
            after_sleep config fn random delay (context_loop config fn random fuel o.0))
          h)

  context_loop-stops :
      (fuel attempt : ℕ) (err : E) (r : Result T E)
      → ltb attempt config.max_attempts ≡ true
      → fn attempt ≡ rejected err
      → (handle_error config fn random (context_at attempt) err).1 ≡ some r
      → context_loop config fn random (suc fuel) (context_at attempt)
        ≡ some (record { result = r; delays = [] })
  unfolding context_loop
  context_loop-stops fuel attempt err r room e h = rw (room, e, h) refl

  retry_from-rejected :
      (left attempt : ℕ) (last : Option E) (err : E)
      → fn attempt ≡ rejected err
      → leb config.max_attempts (suc attempt) ≡ false
      → retry_from config fn random (suc left) attempt last ≡ (
          if wants_retry config err
          then slept config fn random
              (calculate_delay config (random attempt) attempt)
              (retry_from config fn random left (suc attempt) (some err))
          else record { result = threw err; delays = [] })
  unfolding retry_from should_retry
  retry_from-rejected left attempt last err e more = rw (e, retry_from, more) refl

  loop_from :
      (left attempt : ℕ) (last : Option E)
      → attempt + suc left ≡ config.max_attempts
      → context_loop config fn random (suc left) (context_at attempt)
        ≡ some (retry_from config fn random (suc left) attempt last)
  unfolding context_loop retry_from handle_error
  loop_from zero attempt last h =
      let room : ltb attempt config.max_attempts ≡ true = ground arith in
      let full : leb config.max_attempts (suc attempt) ≡ true = ground arith in
      elim (Outcome-cases (fn attempt)) [
        | inl (v, e) ↦ rw (room, e, retry_from) refl
        | inr (err, e) ↦ rw (room, e, retry_from, handle_error, full) refl
      ]
  loop_from (suc left) attempt last h =
      let room : ltb attempt config.max_attempts ≡ true = ground arith in
      let more : leb config.max_attempts (suc attempt) ≡ false = ground arith in
      elim (Outcome-cases (fn attempt)) [
        | inl (v, e) ↦ rw (room, e, retry_from) refl
        | inr (err, e) ↦
            (let side = retry_from-rejected (suc left) attempt last err e more in
              elim (Bool-cases (wants_retry config err)) [
                | inl again ↦
                    (let sleeps = handle_error-sleeps attempt err more again in
                      let rest = loop_from left (suc attempt) (some err) (omega arith) in
                      context_loop-sleeps (suc left) attempt err room e sleeps
                      ∙ ap
                          (after_sleep config fn random
                            (calculate_delay config (random attempt) attempt))
                          rest
                      ∙ ap some (sym (rw again at side)))
                | inr stop ↦
                    context_loop-stops (suc left) attempt err (threw err) room e
                      (handle_error-stops attempt err more stop)
                    ∙ ap some (sym (rw stop at side))
              ])
      ]

  at_least_one :
      (n : ℕ)
      → config.max_attempts ≡ n
      → 0 < n
      → context_loop config fn random n fresh_context ≡ some (retry_from config fn random n 0 none)
  at_least_one zero e h = absurd (omega arith)
  at_least_one (suc n) e h = loop_from n 0 none (omega (arith, e))

  -- For a configuration with at least one attempt, the documented loop over a fresh RetryContext,
  -- with fuel for each attempt, ends with a result, and does what `retry` does: the same result or
  -- error, after the same delays, whatever `fn` does and the random numbers are.
  pub context_loop-retry :
      0 < config.max_attempts
      → context_loop config fn random config.max_attempts fresh_context
        ≡ some (retry config fn random)
  unfolding retry
  context_loop-retry h = at_least_one config.max_attempts refl h
