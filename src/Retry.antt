-- ===== src/Retry.antt =====
-- src/retry/index.ts: retries with exponential backoff. Delays are in 4000ths of a millisecond, so that a
-- jitter of a quarter by a random number in thousandths is a whole number; the base of the
-- exponent is a whole number.
pub mod Loop
pub mod Delay
mod Examples
use agent_sdk.Common.{
  ℕ, zero, suc, ◌+◌, ◌*◌, min, Bool, true, false, not, List, [], ◌∷◌, Option, none, some, leb, ltb,
  if◌then◌else◌,
}

pub record RetryConfig (E : Type 0) : Type 0 where
  pub max_attempts : ℕ
  pub base_delay_ms : ℕ
  pub max_delay_ms : ℕ
  pub exponential_base : ℕ
  pub jitter : Bool
  pub retry_on : Option (List (E → Bool))
  pub retry_if : Option (E → Bool)

abbrev pub power : ℕ → ℕ → ℕ
power b zero = 1
power b (suc n) = b * power b n

-- How one call of `fn` settles.
pub data Outcome (T E : Type 0) : Type 0 where
  resolved : T → Outcome T E
  rejected : E → Outcome T E

-- `exhausted` is RetryExhaustedError; its last error is undefined if nothing was tried.
pub data Result (T E : Type 0) : Type 0 where
  returned : T → Result T E
  exhausted : ℕ → Option E → Result T E
  threw : E → Result T E

-- What came of the retries, with the delays that were slept, in order.
pub record Run (T E : Type 0) : Type 0 where
  pub result : Result T E
  pub delays : List ℕ

-- The state of a RetryContext.
pub record RetryContext : Type 0 where
  pub attempt_count : ℕ
  pub is_exhausted : Bool

abbrev pub fresh_context : RetryContext
fresh_context = record { attempt_count = 0; is_exhausted = false }

module _ {E : Type 0} (config : RetryConfig E) where
  abbrev pub capped_delay : ℕ → ℕ
  capped_delay attempt =
      min (config.base_delay_ms * power config.exponential_base attempt) config.max_delay_ms

  -- `random` is that of `randomFn()`, in thousandths.
  unfoldable pub calculate_delay : ℕ → ℕ → ℕ
  calculate_delay random attempt =
      let capped = capped_delay attempt in
      if config.jitter then capped * (3000 + 2 * random) else capped * 4000

  pub is_instance : List (E → Bool) → E → Bool
  is_instance [] err = false
  is_instance (ctor ∷ ctors) err = if ctor err then true else is_instance ctors err

  -- A list of no classes is no list.
  pub matches : Option (List (E → Bool)) → E → Bool
  unfolding is_instance
  matches none err = true
  matches (some []) err = true
  matches (some (ctor ∷ ctors)) err = is_instance (ctor ∷ ctors) err

  pub wants_retry : E → Bool
  unfolding matches
  wants_retry err = elim config.retry_if [
    | some test ↦ test err
    | none ↦ matches config.retry_on err
  ]

  -- `attempt >= maxAttempts - 1`
  unfoldable pub should_retry : E → ℕ → Bool
  unfolding wants_retry
  should_retry err attempt =
      if leb config.max_attempts (suc attempt) then false else wants_retry err

module _ {T E : Type 0} (config : RetryConfig E) (fn : ℕ → Outcome T E) (random : ℕ → ℕ) where
  abbrev pub slept : ℕ → Run T E → Run T E
  slept delay run = record run { delays = delay ∷ run.delays }

  -- The `for` loop from an attempt on, with the number of attempts that are left.
  pub retry_from : ℕ → ℕ → Option E → Run T E
  unfolding should_retry calculate_delay
  retry_from zero attempt last = record { result = exhausted config.max_attempts last; delays = [] }
  retry_from (suc left) attempt last = elim (fn attempt) [
    | resolved v ↦ record { result = returned v; delays = [] }
    | rejected err ↦
        (let again =
            slept (calculate_delay config (random attempt) attempt)
              (retry_from left (suc attempt) (some err)) in
          if should_retry config err attempt then again else record {
            result =
                if leb config.max_attempts (suc attempt)
                then exhausted config.max_attempts (some err)
                else threw err;
            delays = [];
          })
  ]

  pub retry : Run T E
  unfolding retry_from
  retry = retry_from config.max_attempts 0 none

  abbrev pub should_continue : RetryContext → Bool
  should_continue c = if c.is_exhausted then false else ltb c.attempt_count config.max_attempts

  -- The context after `handleError`, and what that throws; none if it sleeps.
  unfoldable pub handle_error : RetryContext → E → RetryContext × Option (Result T E)
  unfolding should_retry
  handle_error c err =
      let count = suc c.attempt_count in
      if leb config.max_attempts count
      then (
        record { attempt_count = count; is_exhausted = true },
        some (exhausted config.max_attempts (some err)),
      )
      else if should_retry config err c.attempt_count
      then (record { attempt_count = count; is_exhausted = c.is_exhausted }, none)
      else (record { attempt_count = count; is_exhausted = true }, some (threw err))

  abbrev pub after_sleep : ℕ → Option (Run T E) → Option (Run T E)
  after_sleep delay none = none
  after_sleep delay (some run) = some (slept delay run)

  -- `while (ctx.shouldContinue) { try { return await op(); } catch (err) { await ctx.handleError(err); } }`,
  -- with fuel; none if the loop ends by its test, or the fuel is not enough.
  pub context_loop : ℕ → RetryContext → Option (Run T E)
  unfolding handle_error calculate_delay
  context_loop zero c = none
  context_loop (suc fuel) c =
      if should_continue c
      then elim (fn c.attempt_count) [
        | resolved v ↦ some (record { result = returned v; delays = [] })
        | rejected err ↦ elim (handle_error c err).1 [
          | some r ↦ some (record { result = r; delays = [] })
          | none ↦
              after_sleep (calculate_delay config (random c.attempt_count) c.attempt_count)
                (context_loop fuel (handle_error c err).0)
        ]
      ]
      else none
