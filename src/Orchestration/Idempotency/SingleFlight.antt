-- ===== src/Orchestration/Idempotency/SingleFlight.antt =====
-- One call of a key at a time.
use agent_sdk.Common.{ℕ, ◌≡◌, ◌∙◌, ap, List, [], ◌∷◌, All, some, false, arith}
use agent_sdk.Common.Assoc.{get}
use agent_sdk.Orchestration.Idempotency.{
  under_way, CacheEntry, still_valid, answer_with, with_idempotency,
}
use agent_sdk.Orchestration.Idempotency.Flights.{Flight, AllApart}
use agent_sdk.Orchestration.Idempotency.Sharing.{World, start, Reach, IsCached, Reach-Tracks}

-- A call of the key of a flight gets the promise of that flight, and is not invoked.
abbrev pub Joins : {T : Type 0} → World T → Flight → Type 0
Joins w f =
    (ttl_ms id : ℕ)
    → with_idempotency ttl_ms w.clock id f.key w.store
      ≡ record { store = w.store; promise = under_way f.id; invoked = false }

module _ {T : Type 0} where
  IsCached-Joins : (w : World T) (f : Flight) → IsCached w.store w.clock f → Joins w f
  unfolding with_idempotency answer_with
  IsCached-Joins w f c ttl_ms id =
      let held : CacheEntry T = record { promise = under_way f.id; expires_at = f.deadline } in
      let valid : still_valid w.clock (get f.key w.store) ≡ some held =
        ap (still_valid w.clock) c.0 ∙ ground (arith, c.1) in
      ap (answer_with ttl_ms w.clock id f.key w.store) valid

  All-Joins :
      (w : World T) (fs : List Flight) → All (IsCached w.store w.clock) fs → All (Joins w) fs
  All-Joins w [] c = tt
  All-Joins w (f ∷ fs) c = (IsCached-Joins w f c.0, All-Joins w fs c.1)

  -- While every call settles within its time to live, and that is not zero: however calls, their
  -- results and their failures interleave, no two calls of one key are under way at once, and a
  -- call of a key that is under way gets its promise and invokes nothing.
  pub single_flight : {w : World T} → Reach start w → AllApart w.flights × All (Joins w) w.flights
  single_flight {w} r = let t = Reach-Tracks r in (t.distinct, All-Joins w w.flights t.cached)
