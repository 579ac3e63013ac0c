-- ===== src/Resilience/Idempotent/Examples.antt =====
-- A cache of one entry that lives 10 ms.
use agent_sdk.Common.{◌≡◌, [], true, refl}
use agent_sdk.Common.Assoc.{Assoc, get}
use agent_sdk.Resilience.Idempotent.{CacheOptions, Entry, resolves, rejects, call, get_cached, ℕ}
use agent_sdk.Resilience.Idempotent.Cache.{call_after_failure}

abbrev options : CacheOptions
options = record { max_entries = 1; ttl_ms = 10 }

abbrev empty : Assoc (Entry ℕ)
empty = []

abbrev held : Entry ℕ
held = record { value = 1; expires_at = 9 }

call_after_failure_example :
    let again = call options 2 3 "k" (resolves 5) (call options 0 1 "k" (rejects "down") empty).0 in
    (again.1 ≡ resolves 5) × (again.2 ≡ true)
unfolding call get_cached get
call_after_failure_example = call_after_failure options 0 1 "k" "down" empty 2 3 (resolves 5) refl
