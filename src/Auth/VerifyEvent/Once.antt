-- ===== src/Auth/VerifyEvent/Once.antt =====
-- An event is accepted at most once.
use agent_sdk.Common.{
  str_eq, All, ◌<◌, [], none, if_cases, Option-cases, ◌≡◌, inl, ◌≤◌, ◌+◌, arith, inr, ◌≢◌, subst,
}
use agent_sdk.Auth.VerifyEvent.{
  NonceOps, NonceLaws, UnsignedEvent, DomainEvent, String, Option, Time, ℕ, List, verify_event,
  VerifyEventOptions, ◌∷◌, some, Verdict, elem, valid_sources, str_eq, out_of_window, check_nonce,
  verified, default_nonce_ttl_ms, since, before, true,
}

module _ {S Rest : Type 0} (ops : NonceOps S) (laws : NonceLaws S ops)
    (sign_event : UnsignedEvent Rest → String → String) (parse : String → Option Time) where
  -- A call of verifyEvent: its two times, and its arguments.
  pub record Call : Type 0 where
    pub at : ℕ
    pub stored_at : ℕ
    pub opts : VerifyEventOptions
    pub secret : String
    pub event : DomainEvent Rest

  abbrev pub after : List Call → Option S → Option S
  after [] s = s
  after (c ∷ cs) s =
      after cs (verify_event ops sign_event parse c.opts c.at c.stored_at c.secret c.event s).0

  abbrev Remembers : Option S → String → ℕ → Type 0
  Remembers none key expiry = ⊥
  Remembers (some s) key expiry = laws.Knows s key expiry

  verify_event-Remembers :
      (opts : VerifyEventOptions) (now stored_at expiry : ℕ) (secret key : String)
      (e : DomainEvent Rest) (s : Option S)
      → Remembers s key expiry
      → stored_at < expiry
      → Remembers (verify_event ops sign_event parse opts now stored_at secret e s).0 key expiry
  unfolding verify_event
  verify_event-Remembers opts now stored_at expiry secret key e none r lt = absurd r
  verify_event-Remembers opts now stored_at expiry secret key e (some s) r lt =
      let P : Option S × Verdict → Type 0 = λ o. Remembers o.0 key expiry in
      if_cases P (elem e.unsigned.source valid_sources) _ _
        (λ _.
          if_cases P (str_eq (sign_event e.unsigned secret) e.signature) _ _
            (λ _.
              elim (Option-cases
                (out_of_window opts.max_clock_skew_ms now (parse e.unsigned.timestamp))) [
                  | inl n ↦ rw n (
                      laws.Knows-set_nx stored_at default_nonce_ttl_ms expiry
                        e.unsigned.idempotency_key key s r lt)
                  | inr (ms, n) ↦ rw n r
                ])
            (λ _. r))
        (λ _. r)

  after-Remembers :
      (cs : List Call) (expiry : ℕ) (key : String) (s : Option S)
      → Remembers s key expiry
      → All (λ (c : Call). c.stored_at < expiry) cs
      → Remembers (after cs s) key expiry
  after-Remembers [] expiry key s r early = r
  after-Remembers (c ∷ cs) expiry key s r early =
      after-Remembers cs expiry key _
        (verify_event-Remembers c.opts c.at c.stored_at expiry c.secret key c.event s r early.0)
        early.1

  -- What a verdict `verified` says: the text was a date within the window, or no date; and the key was new.
  record Passed (opts : VerifyEventOptions) (now stored_at : ℕ) (e : DomainEvent Rest)
      (s : Option S) (o : Option S) : Type 0 where
    in_window : out_of_window opts.max_clock_skew_ms now (parse e.unsigned.timestamp) ≡ none
    checked : check_nonce ops opts stored_at e.unsigned.idempotency_key s ≡ (o, verified)

  verify_event-Passed :
      (opts : VerifyEventOptions) (now stored_at : ℕ) (secret : String) (e : DomainEvent Rest)
      (s o : Option S)
      → verify_event ops sign_event parse opts now stored_at secret e s ≡ (o, verified)
      → Passed opts now stored_at e s o
  unfolding verify_event
  verify_event-Passed opts now stored_at secret e s o h =
      elim (Option-cases (out_of_window opts.max_clock_skew_ms now (parse e.unsigned.timestamp))) [
        | inl n ↦ record { in_window = n; checked = ground arith }
        | inr (ms, n) ↦ absurd (ground arith)
      ]

  check_nonce-Remembers :
      (opts : VerifyEventOptions) (now : ℕ) (key : String) (s : S) (o : Option S)
      → check_nonce ops opts now key (some s) ≡ (o, verified)
      → Remembers o key (now + default_nonce_ttl_ms)
  unfolding check_nonce
  check_nonce-Remembers opts now key s o h =
      let step = ops.set_nx now default_nonce_ttl_ms key s in
      let is_new : step.1 ≡ true = ground arith in
      let kept : some step.0 ≡ o = ground arith in
      subst (λ (x : Option S). Remembers x key (now + default_nonce_ttl_ms)) kept
        (laws.set_nx-Knows now default_nonce_ttl_ms key s is_new)

  check_nonce_refuses :
      (opts : VerifyEventOptions) (now expiry : ℕ) (key : String) (s o : Option S)
      → Remembers s key expiry
      → now < expiry
      → check_nonce ops opts now key s ≢ (o, verified)
  unfolding check_nonce
  check_nonce_refuses opts now expiry key none o r lt h = absurd r
  check_nonce_refuses opts now expiry key (some s) o r lt h =
      ground (arith, laws.known_not_new now default_nonce_ttl_ms expiry key s r lt)

  near :
      (limit limit' now later : ℕ) (t : Time)
      → out_of_window limit now (some t) ≡ none
      → out_of_window limit' later (some t) ≡ none
      → later ≤ now + limit + limit'
  near limit limit' now later (since t) h k = ground arith
  near limit limit' now later (before t) h k = ground arith

  All-before :
      (cs : List Call) (later expiry : ℕ)
      → later < expiry
      → All (λ (c : Call). c.stored_at ≤ later) cs
      → All (λ (c : Call). c.stored_at < expiry) cs
  All-before [] later expiry lt h = tt
  All-before (c ∷ cs) later expiry lt h = (omega (arith, h.0), All-before cs later expiry lt h.1)

  -- An event whose text is a date is accepted at most once, with a store that keeps the laws of a
  -- nonce store: after it was accepted, and after any calls with any arguments in between, it is not
  -- accepted again at any later time, if the clock does not run backwards and the two windows, with the
  -- time that the second call takes from the check of the clock to the store, are together less than the
  -- time that a nonce lives.
  pub accepted_once :
      (opts opts' : VerifyEventOptions) (now stored_at later later_stored : ℕ)
      (secret secret' : String) (e : DomainEvent Rest) (t : Time) (s : S) (o o' : Option S)
      (between : List Call)
      → parse e.unsigned.timestamp ≡ some t
      → now ≤ stored_at
      → later_stored + (opts.max_clock_skew_ms + opts'.max_clock_skew_ms)
        < later + default_nonce_ttl_ms
      → verify_event ops sign_event parse opts now stored_at secret e (some s) ≡ (o, verified)
      → All (λ (c : Call). c.stored_at ≤ later_stored) between
      → verify_event ops sign_event parse opts' later later_stored secret' e (after between o)
        ≢ (o', verified)
  accepted_once opts opts' now stored_at later later_stored secret secret' e t s o o' between date
        on short first calm again =
      let expiry = stored_at + default_nonce_ttl_ms in
      let p = verify_event-Passed opts now stored_at secret e (some s) o first in
      let q = verify_event-Passed opts' later later_stored secret' e (after between o) o' again in
      let gap =
        near opts.max_clock_skew_ms opts'.max_clock_skew_ms now later t (rw date at p.in_window)
          (rw date at q.in_window) in
      let soon : later_stored < expiry = omega (arith, gap, short, on) in
      check_nonce_refuses opts' later_stored expiry e.unsigned.idempotency_key (after between o) o'
        (after-Remembers between expiry e.unsigned.idempotency_key o
          (check_nonce-Remembers opts stored_at e.unsigned.idempotency_key s o p.checked)
          (All-before between later_stored expiry soon calm))
        soon q.checked
