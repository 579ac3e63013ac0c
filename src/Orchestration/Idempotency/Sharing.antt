-- ===== src/Orchestration/Idempotency/Sharing.antt =====
-- Calls that overlap: at most one call of a key is under way.
use agent_sdk.Common.{
  Option-cases, eq_refl, ◌∙◌, str_eq-cases, inl, inr, sym, subst, ℕ, suc, ◌+◌, ◌<◌, ◌≡◌, false,
  String, List, [], ◌∷◌, ◌++◌, none, some, All, str_eq, if◌then◌else◌, arith, Option, ap,
}
use agent_sdk.Common.Assoc.{Assoc, get, set, get-set, get-delete}
use agent_sdk.Orchestration.Idempotency.{
  under_way, CacheEntry, still_valid, Answer, with_idempotency, on_resolved, on_rejected,
  answer_with,
}
use agent_sdk.Orchestration.Idempotency.Flights.{Flight, Apart, AllApart, split-All, split-AllApart}

-- The cache, the time, the calls under way, and the number of the next promise.
pub record World (T : Type 0) : Type 0 where
  pub store : Assoc (CacheEntry T)
  pub clock : ℕ
  pub flights : List Flight
  pub fresh : ℕ

abbrev pub start : {T : Type 0} → World T
start = record { store = []; clock = 0; flights = []; fresh = 0 }

abbrev pub called : {T : Type 0} → ℕ → String → World T → World T
called {T = T} ttl_ms key w =
    let a : Answer T = with_idempotency ttl_ms w.clock w.fresh key w.store in
    record {
      store = a.store;
      clock = w.clock;
      flights =
          if a.invoked
          then record { id = w.fresh; key = key; ttl_ms = ttl_ms; deadline = w.clock + ttl_ms }
            ∷ w.flights
          else w.flights;
      fresh = suc w.fresh;
    }

-- Time does not pass the deadline of a call under way: a call settles within its time to live.
pub data Step {T : Type 0} (w : World T) : World T → Type 0 where
  waits :
      (ms : ℕ)
      → All (λ (f : Flight). w.clock + ms < f.deadline) w.flights
      → Step w (record w { clock = w.clock + ms })
  calls : (ttl_ms : ℕ) (key : String) → 0 < ttl_ms → Step w (called ttl_ms key w)
  resolves :
      (before after : List Flight) (f : Flight) (value : T)
      → w.flights ≡ before ++ (f ∷ after)
      → Step w (record w {
        store = on_resolved f.ttl_ms w.clock f.key value w.store;
        flights = before ++ after;
      })
  rejects :
      (before after : List Flight) (f : Flight)
      → w.flights ≡ before ++ (f ∷ after)
      → Step w (record w { store = on_rejected f.key w.store; flights = before ++ after })

pub data Reach {T : Type 0} (w : World T) : World T → Type 0 where
  here : Reach w w
  next : {u v : World T} → Reach w u → Step u v → Reach w v

-- A flight's entry is in the cache, and not over.
abbrev pub IsCached : {T : Type 0} → Assoc (CacheEntry T) → ℕ → Flight → Type 0
IsCached store now f =
    (get f.key store ≡ some (record { promise = under_way f.id; expires_at = f.deadline }))
    × (now < f.deadline)

pub record Tracks {T : Type 0} (w : World T) : Type 0 where
  pub cached : All (IsCached w.store w.clock) w.flights
  pub distinct : AllApart w.flights

module _ {T : Type 0} where
  wait-IsCached :
      (store : Assoc (CacheEntry T)) (now later : ℕ) (fs : List Flight)
      → All (λ (f : Flight). later < f.deadline) fs
      → All (IsCached store now) fs
      → All (IsCached store later) fs
  wait-IsCached store now later [] early c = tt
  wait-IsCached store now later (f ∷ fs) early c =
      ((c.0.0, early.0), wait-IsCached store now later fs early.1 c.1)

  -- A store that is changed only at a key that no flight has.
  keep-IsCached :
      (store store' : Assoc (CacheEntry T)) (now : ℕ) (key : String) (fs : List Flight)
      → ((j : String) → str_eq key j ≡ false → get j store' ≡ get j store)
      → Apart key fs
      → All (IsCached store now) fs
      → All (IsCached store' now) fs
  keep-IsCached store store' now key [] same apart c = tt
  keep-IsCached store store' now key (f ∷ fs) same apart c =
      ((same f.key apart.0 ∙ c.0.0, c.0.1), keep-IsCached store store' now key fs same apart.1 c.1)

  invoked-Apart :
      (store : Assoc (CacheEntry T)) (now : ℕ) (key : String) (fs : List Flight)
      → still_valid now (get key store) ≡ none
      → All (IsCached store now) fs
      → Apart key fs
  invoked-Apart store now key [] over c = tt
  invoked-Apart store now key (f ∷ fs) over c = (
    elim (str_eq-cases key f.key) [
      | inl (p, e, e') ↦
          (let there : get key store
                ≡ some (record { promise = under_way f.id; expires_at = f.deadline }) =
              subst
                (λ (k : String).
                  get k store ≡ some (record { promise = under_way f.id; expires_at = f.deadline }))
                (sym p) c.0.0 in
            absurd (ground (arith, there, over, c.0.1)))
      | inr (p, e, e') ↦ e
    ],
    invoked-Apart store now key fs over c.1,
  )

  abbrev flight_of : ℕ → String → World T → Flight
  flight_of ttl_ms key w = record {
    id = w.fresh;
    key = key;
    ttl_ms = ttl_ms;
    deadline = w.clock + ttl_ms;
  }

  -- The world after a call, from the entry that is valid.
  abbrev called_with : ℕ → String → World T → Option (CacheEntry T) → World T
  unfolding answer_with
  called_with ttl_ms key w o =
      let a : Answer T = answer_with ttl_ms w.clock w.fresh key w.store o in
      record {
        store = a.store;
        clock = w.clock;
        flights = if a.invoked then flight_of ttl_ms key w ∷ w.flights else w.flights;
        fresh = suc w.fresh;
      }

  abbrev entry_of : ℕ → World T → CacheEntry T
  entry_of ttl_ms w = record { promise = under_way w.fresh; expires_at = w.clock + ttl_ms }

  called_invokes :
      (ttl_ms : ℕ) (key : String) (w : World T)
      → still_valid w.clock (get key w.store) ≡ none
      → called ttl_ms key w ≡ record {
        store = set key (entry_of ttl_ms w) w.store;
        clock = w.clock;
        flights = flight_of ttl_ms key w ∷ w.flights;
        fresh = suc w.fresh;
      }
  unfolding with_idempotency answer_with called_with
  called_invokes ttl_ms key w n = ap (called_with ttl_ms key w) n

  called_joins :
      (ttl_ms : ℕ) (key : String) (w : World T) (e : CacheEntry T)
      → still_valid w.clock (get key w.store) ≡ some e
      → called ttl_ms key w ≡ record w { fresh = suc w.fresh }
  unfolding with_idempotency answer_with called_with
  called_joins ttl_ms key w e n = ap (called_with ttl_ms key w) n

  called-Tracks :
      (ttl_ms : ℕ) (key : String) (w : World T)
      → 0 < ttl_ms
      → Tracks w
      → Tracks (called ttl_ms key w)
  called-Tracks ttl_ms key w h t = elim (Option-cases (still_valid w.clock (get key w.store))) [
    | inr (e, n) ↦
        subst Tracks (sym (called_joins ttl_ms key w e n))
          (record { cached = t.cached; distinct = t.distinct })
    | inl n ↦
        (let apart = invoked-Apart w.store w.clock key w.flights n t.cached in
          subst Tracks (sym (called_invokes ttl_ms key w n)) (record {
            cached = (
              (
                get-set key key (entry_of ttl_ms w) w.store ∙ ground (arith, eq_refl key),
                omega (arith, h),
              ),
              keep-IsCached w.store _ w.clock key w.flights
                  (λ j ne. get-set key j (entry_of ttl_ms w) w.store ∙ ground (arith, ne)) apart
                  t.cached,
            );
            distinct = (apart, t.distinct);
          }))
  ]

  -- A call that settles leaves, and its key's entry is changed.
  settled-Tracks :
      (w : World T) (store : Assoc (CacheEntry T)) (before after : List Flight) (f : Flight)
      → w.flights ≡ before ++ (f ∷ after)
      → ((j : String) → str_eq f.key j ≡ false → get j store ≡ get j w.store)
      → Tracks w
      → Tracks (record w { store = store; flights = before ++ after })
  settled-Tracks w store before after f at same t =
      let (apart, rest) = split-AllApart before after f (subst AllApart at t.distinct) in
      let (_, others) =
        split-All (IsCached w.store w.clock) before after f
          (subst (λ (fs : List Flight). All (IsCached w.store w.clock) fs) at t.cached) in
      record {
        cached = keep-IsCached w.store store w.clock f.key (before ++ after) same apart others;
        distinct = rest;
      }

  Step-Tracks : {w u : World T} → Tracks w → Step w u → Tracks u
  unfolding on_resolved on_rejected
  Step-Tracks {w} t (waits ms early) = record {
    cached = wait-IsCached w.store w.clock (w.clock + ms) w.flights early t.cached;
    distinct = t.distinct;
  }
  Step-Tracks {w} t (calls ttl_ms key h) = called-Tracks ttl_ms key w h t
  Step-Tracks {w} t (resolves before after f value at) =
      settled-Tracks w _ before after f at (λ j ne. get-set f.key j _ w.store ∙ ground (arith, ne))
        t
  Step-Tracks {w} t (rejects before after f at) =
      settled-Tracks w _ before after f at (λ j ne. get-delete f.key j w.store ∙ ground (arith, ne))
        t

  pub Reach-Tracks : {w : World T} → Reach start w → Tracks w
  Reach-Tracks here = record { cached = tt; distinct = tt }
  Reach-Tracks (next r s) = Step-Tracks (Reach-Tracks r) s
