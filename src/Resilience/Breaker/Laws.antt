-- ===== src/Resilience/Breaker/Laws.antt =====
-- The breaker between two calls, and over runs of failing calls.
use agent_sdk.Common.{ℕ, ◌+◌, ◌≤◌, ◌<◌, ◌≡◌, ◌↔◌, true, List, [], ◌∷◌, arith, length}
use agent_sdk.Resilience.Breaker.{
  Breaker, CircuitBreakerOptions, closed, opened, circuit_open, success, failure, enter, run,
}

-- A call is refused with `left` ms to go exactly if the breaker is open and `left` ms of its window remain.
pub enter-circuit_open_iff :
    (o : CircuitBreakerOptions) (now left : ℕ) (b : Breaker)
    → ((enter o now b).1 ≡ circuit_open left)
      ↔ ((b.state ≡ opened) × (0 < left) × (now + left ≡ b.opened_at + o.reset_after_ms))
unfolding enter
enter-circuit_open_iff o now left b = (λ h. ground arith, λ h. ground arith)

-- Calls one after the other, each of which fails; a pair is the time of entry and of settling.
pub fail_all : CircuitBreakerOptions → List (ℕ × ℕ) → Breaker → Breaker
fail_all o [] b = b
fail_all o ((now, later) ∷ rest) b = fail_all o rest (run o now later (failure true) b).0

run_failing :
    (o : CircuitBreakerOptions) (now later : ℕ) (b : Breaker)
    → b.state ≡ closed
    → b.failure_count + 1 < o.failure_threshold
    → ((run o now later (failure true) b).0.state ≡ closed)
      × ((run o now later (failure true) b).0.failure_count ≡ b.failure_count + 1)
unfolding run
run_failing o now later b c h = ground arith

-- Fewer failures in a row than the threshold leave a closed breaker closed, and are all counted.
pub fail_all-closed :
    (o : CircuitBreakerOptions) (calls : List (ℕ × ℕ)) (b : Breaker)
    → b.state ≡ closed
    → b.failure_count + length calls < o.failure_threshold
    → ((fail_all o calls b).state ≡ closed)
      × ((fail_all o calls b).failure_count ≡ b.failure_count + length calls)
unfolding fail_all
fail_all-closed o [] b c h = (c, omega arith)
fail_all-closed o ((now, later) ∷ rest) b c h =
    let s = run_failing o now later b c (omega arith) in
    let ih = fail_all-closed o rest (run o now later (failure true) b).0 s.0 (omega arith) in
    (ih.0, omega arith)

run_trips :
    (o : CircuitBreakerOptions) (now later : ℕ) (b : Breaker)
    → b.state ≡ closed
    → o.failure_threshold ≤ b.failure_count + 1
    → ((run o now later (failure true) b).0.state ≡ opened)
      × ((run o now later (failure true) b).0.opened_at ≡ later)
unfolding run
run_trips o now later b c h = ground arith

-- Of failing calls one after the other on a closed breaker, the one that brings the count to the
-- threshold opens it, for a window from the time that call settled.
pub fail_all_trips :
    (o : CircuitBreakerOptions) (calls : List (ℕ × ℕ)) (now later : ℕ) (b : Breaker)
    → b.state ≡ closed
    → b.failure_count + length calls + 1 ≡ o.failure_threshold
    → ((run o now later (failure true) (fail_all o calls b)).0.state ≡ opened)
      × ((run o now later (failure true) (fail_all o calls b)).0.opened_at ≡ later)
fail_all_trips o calls now later b c h =
    let f = fail_all-closed o calls b c (omega arith) in
    run_trips o now later (fail_all o calls b) f.0 (omega arith)

-- From the first call after the window on, the probe's outcome alone decides: a success closes the
-- breaker with no failure counted, a counted failure opens a new window at the time it settled.
pub probe_decides :
    (o : CircuitBreakerOptions) (now later : ℕ) (b : Breaker)
    → b.state ≡ opened
    → b.opened_at + o.reset_after_ms ≤ now
    → (let b' = (run o now later success b).0 in (b'.state ≡ closed) × (b'.failure_count ≡ 0))
      × (let b' = (run o now later (failure true) b).0 in
          (b'.state ≡ opened) × (b'.opened_at ≡ later))
unfolding run
probe_decides o now later b s h = ground arith
