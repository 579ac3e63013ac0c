-- ===== src/Auth/VerifyEvent/Memory.antt =====
-- InMemoryNonceStore is a nonce store as verifyEvent needs it.
use agent_sdk.Common.{◌≡◌}
use agent_sdk.Common.Assoc.{Assoc, get}
use agent_sdk.Auth.VerifyEvent.{NonceOps, NonceLaws, ℕ, ◌≡◌, some}
use agent_sdk.Auth.NonceStore.Replay.{get_accepted, set_nx_keeps, refused_if_there}
use agent_sdk.Auth.NonceStore.{set_nx}

abbrev pub memory : NonceOps (Assoc ℕ)
memory = record { set_nx = set_nx }

pub memory_laws : NonceLaws (Assoc ℕ) memory
memory_laws = record {
  Knows = λ store key expiry. get key store ≡ some expiry;
  set_nx-Knows = λ now ttl_ms key store h. get_accepted now ttl_ms key store h;
  Knows-set_nx =
      λ now ttl_ms expiry other key store h lt. set_nx_keeps now ttl_ms expiry other key store h lt;
  known_not_new =
      λ now ttl_ms expiry key store h lt. refused_if_there now ttl_ms expiry key store h lt;
}
