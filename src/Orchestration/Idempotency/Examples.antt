-- ===== src/Orchestration/Idempotency/Examples.antt =====
-- Two calls of different keys, with the same time to live.
use agent_sdk.Common.{ℕ, ◌≡◌, [], ◌∷◌, All, none, refl, arith}
use agent_sdk.Common.Assoc.{Assoc, get, set, delete}
use agent_sdk.Orchestration.Idempotency.{CacheEntry, under_way, with_idempotency, on_rejected}
use agent_sdk.Orchestration.Idempotency.Flights.{Flight, AllApart}
use agent_sdk.Orchestration.Idempotency.Sharing.{World, start, Reach, here, next, calls, waits}
use agent_sdk.Orchestration.Idempotency.SingleFlight.{Joins, single_flight}

abbrev flight_a : Flight
flight_a = record { id = 0; key = "a"; ttl_ms = 10; deadline = 10 }

abbrev flight_b : Flight
flight_b = record { id = 2; key = "b"; ttl_ms = 10; deadline = 15 }

-- "a" is called at 0 and at 5, and "b" at 5.
abbrev shared : World ℕ
shared = record {
  store =
      ("a", record { promise = under_way 0; expires_at = 10 })
      ∷ (("b", record { promise = under_way 2; expires_at = 15 }) ∷ []);
  clock = 5;
  flights = flight_b ∷ (flight_a ∷ []);
  fresh = 3;
}

to_shared : Reach start shared
unfolding with_idempotency get set
to_shared =
    next
      (next (next (next here (calls 10 "a" (omega arith))) (waits 5 (omega arith, tt)))
        (calls 10 "a" (omega arith)))
      (calls 10 "b" (omega arith))

single_flight_example : AllApart shared.flights × All (Joins shared) shared.flights
single_flight_example = single_flight to_shared

abbrev empty : Assoc (CacheEntry ℕ)
empty = []

-- A call that outlives its time to live, and fails after a newer call of its key has begun, evicts the
-- newer call's entry.
abbrev overtaken : Assoc (CacheEntry ℕ)
overtaken =
    on_rejected "a" (with_idempotency 10 20 1 "a" (with_idempotency 10 0 0 "a" empty).store).store

newer_call_forgotten : get "a" overtaken ≡ none
unfolding with_idempotency on_rejected get set delete
newer_call_forgotten = refl
