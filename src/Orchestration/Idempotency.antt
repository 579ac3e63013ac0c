-- ===== src/Orchestration/Idempotency.antt =====
-- src/orchestration/idempotency.ts: withIdempotency, which shares one call among its callers by a key.
-- Promises are told apart by numbers.
pub mod Flights
pub mod Sharing
pub mod SingleFlight
mod Examples
use agent_sdk.Common.{
  ℕ, ◌+◌, Bool, true, false, String, List, Option, none, some, ltb, if◌then◌else◌,
}
use agent_sdk.Common.Assoc.{Assoc, get, set, delete}

-- What a caller gets: the promise of a call under way, or one that is resolved.
pub data Shared (T : Type 0) : Type 0 where
  under_way : ℕ → Shared T
  resolved : T → Shared T

pub record CacheEntry (T : Type 0) : Type 0 where
  pub promise : Shared T
  pub expires_at : ℕ

-- `existing !== undefined && existing.expiresAt > now`
abbrev pub still_valid : {T : Type 0} → ℕ → Option (CacheEntry T) → Option (CacheEntry T)
still_valid now none = none
still_valid now (some e) = if ltb now e.expires_at then some e else none

pub record Answer (T : Type 0) : Type 0 where
  pub store : Assoc (CacheEntry T)
  pub promise : Shared T
  pub invoked : Bool

-- What a call at `now` does with the valid entry of its key, if there is one; `id` is the number of its
-- promise, if `call` is invoked.
pub answer_with :
    {T : Type 0} → ℕ → ℕ → ℕ → String → Assoc (CacheEntry T) → Option (CacheEntry T) → Answer T
unfolding set
answer_with ttl_ms now id key store (some e) = record {
  store = store;
  promise = e.promise;
  invoked = false;
}
answer_with ttl_ms now id key store none = record {
  store = set key (record { promise = under_way id; expires_at = now + ttl_ms }) store;
  promise = under_way id;
  invoked = true;
}

unfoldable pub with_idempotency :
    {T : Type 0} → ℕ → ℕ → ℕ → String → Assoc (CacheEntry T) → Answer T
unfolding get answer_with
with_idempotency ttl_ms now id key store =
    answer_with ttl_ms now id key store (still_valid now (get key store))

-- The two callbacks of `then`.
unfoldable pub on_resolved :
    {T : Type 0} → ℕ → ℕ → String → T → Assoc (CacheEntry T) → Assoc (CacheEntry T)
unfolding set
on_resolved ttl_ms now key value store =
    set key (record { promise = resolved value; expires_at = now + ttl_ms }) store

unfoldable pub on_rejected : {T : Type 0} → String → Assoc (CacheEntry T) → Assoc (CacheEntry T)
unfolding delete
on_rejected key store = delete key store
