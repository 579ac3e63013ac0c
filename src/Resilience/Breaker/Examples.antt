-- ===== src/Resilience/Breaker/Examples.antt =====
-- Runs of a breaker of threshold 2 and a window of 100 ms.
use agent_sdk.Common.{arith, true}
use agent_sdk.Resilience.Breaker.{
  CircuitBreakerOptions, Breaker, enter, settle, opened, failure, initial,
}
use agent_sdk.Common.{refl}
use agent_sdk.Resilience.Breaker.Interleaving.{
  World, IsValid, Reach, here, next, begins, settles, waits, start, overlap-IsValid,
}

abbrev options : CircuitBreakerOptions
options = record { failure_threshold = 2; reset_after_ms = 100 }

abbrev tripped : Breaker
tripped = record { state = opened; failure_count = 2; opened_at = 50 }

-- A call begins, another begins, and the first fails 5 ms later.
abbrev overlapped : World
overlapped = record {
  breaker = settle options 15 (failure true) initial;
  clock = 15;
  in_flight = 1;
}

to_overlapped : Reach options (start 10) overlapped
unfolding enter
to_overlapped =
    next (next (next (next here (begins refl)) (begins refl)) (waits 5))
      (settles (failure true) 1 refl)

overlap-IsValid_example : IsValid options overlapped
overlap-IsValid_example = overlap-IsValid options 10 (omega arith) to_overlapped
