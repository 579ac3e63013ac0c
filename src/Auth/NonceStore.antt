-- ===== src/Auth/NonceStore.antt =====
-- InMemoryNonceStore of src/auth/nonce-store.ts: a Map from keys to the times at which they expire.
pub mod Replay
use agent_sdk.Common.{ℕ, String, ◌∷◌, if◌then◌else◌, Bool, leb, some, false, [], ◌+◌, true, none}
use agent_sdk.Common.Assoc.{Assoc, get, set}

-- The entries that are past their time are deleted, in one pass over the map.
pub evict_expired : ℕ → Assoc ℕ → Assoc ℕ
evict_expired now [] = []
evict_expired now ((k, expiry) ∷ m) =
    let rest = evict_expired now m in if leb expiry now then rest else (k, expiry) ∷ rest

-- True if the key was not there.
unfoldable pub set_nx : ℕ → ℕ → String → Assoc ℕ → Assoc ℕ × Bool
unfolding evict_expired
set_nx now ttl_ms key store =
    let kept = evict_expired now store in
    elim (get key kept) [ some expiry ↦ (kept, false) | none ↦ (set key (now + ttl_ms) kept, true) ]
