-- ===== src/Auth/NonceStore/Replay.antt =====
-- A key that was accepted is refused until its time is over, whatever other keys come in between.
use agent_sdk.Common.{List, ◌≡◌, [], ◌<◌, All, ◌+◌, arith, str_eq-cases, inl, eq_refl, ap, inr}
use agent_sdk.Common.Assoc.{Assoc, get, get-set}
use agent_sdk.Auth.NonceStore.{evict_expired, set_nx, ℕ, String, ◌∷◌, some, true, false}

-- A call of `setNX`: its time, its time to live, and its key.
pub record Call : Type 0 where
  pub at : ℕ
  pub ttl_ms : ℕ
  pub key : String

abbrev pub set_all : List Call → Assoc ℕ → Assoc ℕ
set_all [] store = store
set_all (c ∷ cs) store = set_all cs (set_nx c.at c.ttl_ms c.key store).0

get-evict_expired :
    (now expiry : ℕ) (key : String) (store : Assoc ℕ)
    → get key store ≡ some expiry
    → now < expiry
    → get key (evict_expired now store) ≡ some expiry
unfolding evict_expired get
get-evict_expired now expiry key [] h lt = absurd cc
get-evict_expired now expiry key ((k, e) ∷ store) h lt =
    ground (arith, get-evict_expired now expiry key store)

-- Before its time is over, a key stays, and its time too.
pub set_nx_keeps :
    (now ttl_ms expiry : ℕ) (other key : String) (store : Assoc ℕ)
    → get key store ≡ some expiry
    → now < expiry
    → get key (set_nx now ttl_ms other store).0 ≡ some expiry
unfolding set_nx
set_nx_keeps now ttl_ms expiry other key store h lt =
    let kept = evict_expired now store in
    let there = get-evict_expired now expiry key store h lt in
    elim (str_eq-cases other key) [
      | inl (p, e, e') ↦ ground (arith, there, ap (λ (k : String). get k kept) p)
      | inr (p, e, e') ↦ ground (arith, there, get-set other key (now + ttl_ms) kept)
    ]

set_all_keeps :
    (cs : List Call) (expiry : ℕ) (key : String) (store : Assoc ℕ)
    → get key store ≡ some expiry
    → All (λ (c : Call). c.at < expiry) cs
    → get key (set_all cs store) ≡ some expiry
set_all_keeps [] expiry key store h all = h
set_all_keeps (c ∷ cs) expiry key store h all =
    set_all_keeps cs expiry key _ (set_nx_keeps c.at c.ttl_ms expiry c.key key store h all.0) all.1

pub get_accepted :
    (now ttl_ms : ℕ) (key : String) (store : Assoc ℕ)
    → (set_nx now ttl_ms key store).1 ≡ true
    → get key (set_nx now ttl_ms key store).0 ≡ some (now + ttl_ms)
unfolding set_nx
get_accepted now ttl_ms key store h =
    ground (arith, get-set key key (now + ttl_ms) (evict_expired now store), eq_refl key)

pub refused_if_there :
    (now ttl_ms expiry : ℕ) (key : String) (store : Assoc ℕ)
    → get key store ≡ some expiry
    → now < expiry
    → (set_nx now ttl_ms key store).1 ≡ false
unfolding set_nx
refused_if_there now ttl_ms expiry key store h lt =
    ground (arith, get-evict_expired now expiry key store h lt)

-- A replay is refused: once a key was accepted, it is not accepted again before its time to live is
-- over, whatever calls with whatever keys come in between.
replay_refused :
    (now ttl_ms : ℕ) (key : String) (store : Assoc ℕ) (between : List Call) (later ttl' : ℕ)
    → (set_nx now ttl_ms key store).1 ≡ true
    → All (λ (c : Call). c.at < now + ttl_ms) between
    → later < now + ttl_ms
    → (set_nx later ttl' key (set_all between (set_nx now ttl_ms key store).0)).1 ≡ false
replay_refused now ttl_ms key store between later ttl' h all lt =
    refused_if_there later ttl' (now + ttl_ms) key _
      (set_all_keeps between (now + ttl_ms) key _ (get_accepted now ttl_ms key store h) all) lt
