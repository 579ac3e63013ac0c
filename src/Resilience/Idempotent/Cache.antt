-- ===== src/Resilience/Idempotent/Cache.antt =====
-- What the cache remembers, what it forgets, and how many entries it holds.
use agent_sdk.Common.{
  ◌≤◌, ◌<◌, ◌≡◌, ◌≢◌, ◌-◌, ◌+◌, some, Option-cases, arith, true, inl, eq_refl, false, ◌∷◌, inr,
  none, [], str_eq-cases,
}
use agent_sdk.Common.Assoc.{
  Assoc, get, delete, get-set, get-delete, length-set-le, length-delete-le,
}
use agent_sdk.Resilience.Idempotent.{
  CacheOptions, Entry, Outcome, resolves, rejects, get_cached, set_cached, evict_oldest, call,
  length, ℕ, String,
}

module _ {T : Type 0} where
  length-evict_oldest-le :
      (store : Assoc (Entry T)) → length (evict_oldest store) ≤ length store - 1
  unfolding evict_oldest delete
  length-evict_oldest-le [] = omega arith
  length-evict_oldest-le ((oldest, e) ∷ store) =
      ground (arith, eq_refl oldest, length-delete-le oldest store)

  length-set_cached-le :
      (o : CacheOptions) (now : ℕ) (key : String) (value : T) (store : Assoc (Entry T))
      → 0 < o.max_entries
      → length store ≤ o.max_entries
      → length (set_cached o now key value store) ≤ o.max_entries
  unfolding set_cached
  length-set_cached-le o now key value store p h =
      let e : Entry T = record { value = value; expires_at = now + o.ttl_ms } in
      ground (
        arith,
        length-evict_oldest-le store,
        length-set-le key e store,
        length-set-le key e (evict_oldest store),
      )

  delete-get-length :
      (key : String) (e : Entry T) (store : Assoc (Entry T))
      → get key store ≡ some e
      → length (delete key store) + 1 ≤ length store
  unfolding get delete
  delete-get-length key e [] h = absurd cc
  delete-get-length key e ((k, v) ∷ store) h =
      ground (arith, delete-get-length key e store, length-delete-le key store)

  length-get_cached-le :
      (now : ℕ) (key : String) (store : Assoc (Entry T))
      → length (get_cached now key store).0 ≤ length store
  unfolding get_cached
  length-get_cached-le now key store = elim (Option-cases (get key store)) [
    | inl n ↦ rw (n, get_cached) (omega arith)
    | inr (e, h) ↦
        rw (h, get_cached)
          (ground (arith, delete-get-length key e store h, length-set-le key e (delete key store)))
  ]

  -- A cache that may hold an entry never holds more of them than it may.
  pub length-call-le :
      (o : CacheOptions) (now later : ℕ) (key : String) (out : Outcome T) (store : Assoc (Entry T))
      → 0 < o.max_entries
      → length store ≤ o.max_entries
      → length (call o now later key out store).0 ≤ o.max_entries
  unfolding call
  length-call-le o now later key (resolves v) store p h =
      let s = (get_cached now key store).0 in
      ground (arith, length-get_cached-le now key store, length-set_cached-le o later key v s p)
  length-call-le o now later key (rejects why) store p h =
      ground (arith, length-get_cached-le now key store)

  get-set_cached :
      (o : CacheOptions) (now : ℕ) (key : String) (value : T) (store : Assoc (Entry T))
      → get key (set_cached o now key value store)
        ≡ some (record { value = value; expires_at = now + o.ttl_ms })
  unfolding set_cached
  get-set_cached o now key value store =
      let e : Entry T = record { value = value; expires_at = now + o.ttl_ms } in
      ground (arith, eq_refl key, get-set key key e store, get-set key key e (evict_oldest store))

  get_cached_of :
      (now : ℕ) (key : String) (e : Entry T) (store : Assoc (Entry T))
      → get key store ≡ some e
      → now ≤ e.expires_at
      → (get_cached now key store).1 ≡ some e.value
  unfolding get_cached
  get_cached_of now key e store h le = rw (h, get_cached) (ground arith)

  get_cached-none :
      (now : ℕ) (key : String) (store : Assoc (Entry T))
      → get key store ≡ none
      → get_cached now key store ≡ (store, none)
  unfolding get_cached
  get_cached-none now key store h = rw (h, get_cached)

  -- After a miss the key is not in the store.
  get_after_miss :
      (now : ℕ) (key : String) (store : Assoc (Entry T))
      → (get_cached now key store).1 ≡ none
      → get key (get_cached now key store).0 ≡ none
  unfolding get_cached
  get_after_miss now key store h = ground (arith, eq_refl key, get-delete key key store)

  -- A call that invoked the function and resolved is answered from the cache until its time is
  -- over: the next call of its key settles as it did, and does not invoke the function.
  pub call_again :
      (o : CacheOptions) (now later : ℕ) (key : String) (value : T) (store : Assoc (Entry T))
      (now' later' : ℕ) (out : Outcome T)
      → (call o now later key (resolves value) store).2 ≡ true
      → now' ≤ later + o.ttl_ms
      → let again = call o now' later' key out (call o now later key (resolves value) store).0 in
        (again.1 ≡ resolves value) × (again.2 ≡ false)
  unfolding call
  call_again o now later key value store now' later' out h le =
      let s = (get_cached now key store).0 in
      let kept = set_cached o later key value s in
      let e : Entry T = record { value = value; expires_at = later + o.ttl_ms } in
      let hit = get_cached_of now' key e kept (get-set_cached o later key value s) le in
      ground (arith, hit)

  -- A failure is not cached: after a call that invoked the function and rejected, the next call of
  -- its key invokes it again, and settles as that does.
  pub call_after_failure :
      (o : CacheOptions) (now later : ℕ) (key why : String) (store : Assoc (Entry T))
      (now' later' : ℕ) (out : Outcome T)
      → (call o now later key (rejects why) store).2 ≡ true
      → let again = call o now' later' key out (call o now later key (rejects why) store).0 in
        (again.1 ≡ out) × (again.2 ≡ true)
  unfolding call
  call_after_failure o now later key why store now' later' out h =
      let s = (get_cached now key store).0 in
      let miss : (get_cached now key store).1 ≡ none = ground arith in
      let again = get_cached-none now' key s (get_after_miss now key store miss) in
      ground (arith, again)

  -- A write to a full cache drops the oldest entry, also if the key that is written is there
  -- already and no room is needed.
  pub set_cached_drops :
      (o : CacheOptions) (now : ℕ) (key oldest : String) (value : T) (e : Entry T)
      (store : Assoc (Entry T))
      → oldest ≢ key
      → o.max_entries ≤ length store + 1
      → get oldest (set_cached o now key value ((oldest, e) ∷ store)) ≡ none
  unfolding set_cached evict_oldest
  set_cached_drops o now key oldest value e store ne full =
      let e' : Entry T = record { value = value; expires_at = now + o.ttl_ms } in
      let gone = get-delete oldest oldest ((oldest, e) ∷ store) in
      let kept = get-set key oldest e' (delete oldest ((oldest, e) ∷ store)) in
      ground (arith, gone, kept, eq_refl oldest, str_eq-cases key oldest)
