-- ===== src/Resilience/Idempotent.antt =====
-- src/resilience/idempotent.ts: BoundedTtlCache, and the wrapper `idempotent` over it. The hash of
-- the arguments is left to the caller: a call comes with its key.
pub mod Cache
mod Examples
use agent_sdk.Common.Assoc.{Assoc, get, set, delete}
use agent_sdk.Common.{
  ℕ, String, Option, if◌then◌else◌, Bool, leb, some, length, false, true, ◌+◌, none, ltb, ◌∷◌, [],
}

pub record CacheOptions : Type 0 where
  pub max_entries : ℕ
  pub ttl_ms : ℕ

pub record Entry (T : Type 0) : Type 0 where
  pub value : T
  pub expires_at : ℕ

-- How the wrapped function's promise settles.
pub data Outcome (T : Type 0) : Type 0 where
  resolves : T → Outcome T
  rejects : String → Outcome T

module _ {T : Type 0} where
  -- A hit moves the entry to the end; an entry that is past its time is dropped.
  unfoldable pub get_cached : ℕ → String → Assoc (Entry T) → Assoc (Entry T) × Option T
  get_cached now key store = elim (get key store) [
    | none ↦ (store, none)
    | some e ↦
        if ltb e.expires_at now
        then (delete key store, none)
        else (set key e (delete key store), some e.value)
  ]

  -- `keys().next().value` is the key that was set first.
  pub evict_oldest : Assoc (Entry T) → Assoc (Entry T)
  evict_oldest [] = []
  evict_oldest ((oldest, e) ∷ store) = delete oldest ((oldest, e) ∷ store)

  unfoldable pub set_cached : CacheOptions → ℕ → String → T → Assoc (Entry T) → Assoc (Entry T)
  unfolding evict_oldest
  set_cached o now key value store =
      let room = if leb o.max_entries (length store) then evict_oldest store else store in
      set key (record { value = value; expires_at = now + o.ttl_ms }) room

  -- A whole call: what it settles as, the store, and whether the function was invoked. `now` is
  -- the time of the lookup, `later` that of the write.
  unfoldable pub call :
      CacheOptions
      → ℕ
      → ℕ
      → String
      → Outcome T
      → Assoc (Entry T)
      → Assoc (Entry T) × Outcome T × Bool
  unfolding get_cached set_cached
  call o now later key out store =
      let (store', hit) = get_cached now key store in
      elim hit [
        | some value ↦ (store', resolves value, false)
        | none ↦ elim out [
          | resolves value ↦ (set_cached o later key value store', resolves value, true)
          | rejects why ↦ (store', rejects why, true)
        ]
      ]
