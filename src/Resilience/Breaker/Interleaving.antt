-- ===== src/Resilience/Breaker/Interleaving.antt =====
-- Calls of one breaker that overlap: other calls run while a call's promise is pending.
use agent_sdk.Common.{ℕ, zero, suc, ◌+◌, ◌≤◌, ◌<◌, ◌≡◌, refl, arith}
use agent_sdk.Resilience.Breaker.{
  Breaker, CircuitBreakerOptions, Outcome, closed, opened, half_open, admitted, circuit_open,
  initial, enter, settle, reset,
}

pub record World : Type 0 where
  pub breaker : Breaker
  pub clock : ℕ
  pub in_flight : ℕ

abbrev pub start : ℕ → World
start now = record { breaker = initial; clock = now; in_flight = 0 }

pub data Step (o : CircuitBreakerOptions) (w : World) : World → Type 0 where
  waits : (ms : ℕ) → Step o w (record w { clock = w.clock + ms })
  refused :
      (left : ℕ)
      → (enter o w.clock w.breaker).1 ≡ circuit_open left
      → Step o w (record w { breaker = (enter o w.clock w.breaker).0 })
  begins :
      (enter o w.clock w.breaker).1 ≡ admitted
      → Step o w (record w { breaker = (enter o w.clock w.breaker).0; in_flight = w.in_flight + 1 })
  settles :
      (out : Outcome) (others : ℕ)
      → w.in_flight ≡ suc others
      → Step o w (record w { breaker = settle o w.clock out w.breaker; in_flight = others })
  resets : Step o w (record w { breaker = reset w.breaker })

pub data Reach (o : CircuitBreakerOptions) (w : World) : World → Type 0 where
  here : Reach o w w
  next : {u v : World} → Reach o w u → Step o u v → Reach o w v

pub record IsValid (o : CircuitBreakerOptions) (w : World) : Type 0 where
  pub below_threshold : w.breaker.state ≡ closed → w.breaker.failure_count < o.failure_threshold
  pub opened_before : w.breaker.opened_at ≤ w.clock

start-IsValid :
    (o : CircuitBreakerOptions) (now : ℕ) → 0 < o.failure_threshold → IsValid o (start now)
start-IsValid o now h = ground arith

enter-IsValid :
    (o : CircuitBreakerOptions) (w : World) (n : ℕ)
    → IsValid o w
    → IsValid o (record w { breaker = (enter o w.clock w.breaker).0; in_flight = n })
unfolding enter
enter-IsValid o w n v = ground arith

settle-IsValid :
    (o : CircuitBreakerOptions) (w : World) (n : ℕ) (out : Outcome)
    → 0 < o.failure_threshold
    → IsValid o w
    → IsValid o (record w { breaker = settle o w.clock out w.breaker; in_flight = n })
unfolding settle
settle-IsValid o w n out h v = ground arith

Step-IsValid :
    (o : CircuitBreakerOptions) {w u : World}
    → 0 < o.failure_threshold
    → IsValid o w
    → Step o w u
    → IsValid o u
unfolding reset
Step-IsValid o h v (waits ms) = record {
  below_threshold = v.below_threshold;
  opened_before = omega arith;
}
Step-IsValid o {w} h v (refused left e) = enter-IsValid o w w.in_flight v
Step-IsValid o {w} h v (begins e) = enter-IsValid o w (w.in_flight + 1) v
Step-IsValid o {w} h v (settles out others e) = settle-IsValid o w others out h v
Step-IsValid o h v resets = ground arith

-- With a positive threshold, however calls overlap, a closed breaker has counted fewer failures than the threshold, and an
-- open window never starts in the future.
pub overlap-IsValid :
    (o : CircuitBreakerOptions) (now : ℕ) {w : World}
    → 0 < o.failure_threshold
    → Reach o (start now) w
    → IsValid o w
overlap-IsValid o now h here = start-IsValid o now h
overlap-IsValid o now h (next r s) = Step-IsValid o h (overlap-IsValid o now h r) s

-- How many of `n` calls that enter one after the other, before any of them settles, are started.
pub started : CircuitBreakerOptions → ℕ → ℕ → Breaker → ℕ
started o now zero b = 0
started o now (suc n) b =
    let (b', a) = enter o now b in
    let rest = started o now n b' in elim a [ admitted ↦ suc rest | circuit_open _ ↦ rest ]

started-half_open :
    (o : CircuitBreakerOptions) (now n : ℕ) (b : Breaker)
    → b.state ≡ half_open
    → started o now n b ≡ n
unfolding started enter
started-half_open o now zero b s = refl
started-half_open o now (suc n) b s = ground (arith, started-half_open o now n b s)

-- Once the window is over, all calls that enter before the first of them settles are started, not
-- one probe.
pub started_all :
    (o : CircuitBreakerOptions) (now n : ℕ) (b : Breaker)
    → b.state ≡ opened
    → b.opened_at + o.reset_after_ms ≤ now
    → started o now n b ≡ n
unfolding started enter
started_all o now zero b s h = refl
started_all o now (suc n) b s h =
    ground (arith, started-half_open o now n (record b { state = half_open }) refl)
