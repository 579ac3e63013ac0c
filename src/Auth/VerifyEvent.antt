-- ===== src/Auth/VerifyEvent.antt =====
-- src/auth/verify-event.ts: the checks of a signed event. The MAC of signEvent, `Date.parse` and the
-- nonce store are parameters; the store is used through NonceOps.
pub mod Once
pub mod Memory
mod Examples
use agent_sdk.Common.{
  ℕ, ◌+◌, ◌-◌, ◌<◌, Bool, true, false, String, List, [], ◌∷◌, Option, none, some, elem, ltb, str_eq,
  if◌then◌else◌, ◌≡◌,
}

-- The interface `NonceStore`: `setNX` at a time, with a time to live and a key.
pub record NonceOps (S : Type 0) : Type 0 where
  pub set_nx : ℕ → ℕ → String → S → S × Bool

-- What verifyEvent relies on: a key that was newly set is known until its time to live is over, whatever
-- other keys are set, and until then it is not new.
pub record NonceLaws (S : Type 0) (ops : NonceOps S) : Type 1 where
  pub Knows : S → String → ℕ → Type 0
  pub set_nx-Knows :
      (now ttl_ms : ℕ) (key : String) (s : S)
      → (ops.set_nx now ttl_ms key s).1 ≡ true
      → Knows (ops.set_nx now ttl_ms key s).0 key (now + ttl_ms)
  pub Knows-set_nx :
      (now ttl_ms expiry : ℕ) (other key : String) (s : S)
      → Knows s key expiry
      → now < expiry
      → Knows (ops.set_nx now ttl_ms other s).0 key expiry
  pub known_not_new :
      (now ttl_ms expiry : ℕ) (key : String) (s : S)
      → Knows s key expiry
      → now < expiry
      → (ops.set_nx now ttl_ms key s).1 ≡ false

-- A time in milliseconds, from the epoch or before it.
pub data Time : Type 0 where
  since before : ℕ → Time

-- `eventWithoutSig`: the fields that verifyEvent reads itself, and `rest`, which only signEvent reads.
pub record UnsignedEvent (Rest : Type 0) : Type 0 where
  pub source : String
  pub timestamp : String
  pub idempotency_key : String
  pub rest : Rest

pub record DomainEvent (Rest : Type 0) : Type 0 where
  pub unsigned : UnsignedEvent Rest
  pub signature : String

pub record VerifyEventOptions : Type 0 where
  pub max_clock_skew_ms : ℕ
  pub require_nonce_store : Bool

pub data Verdict : Type 0 where
  verified invalid_signature : Verdict
  unknown_source replay_detected : String → Verdict
  clock_skew : ℕ → Verdict

abbrev pub valid_sources : List String
valid_sources =
    "forge"
    ∷ ("vauban"
        ∷ ("vauban-finance" ∷ ("brain" ∷ ("citadel" ∷ ("glacis" ∷ ("cc" ∷ ("tenant" ∷ [])))))))

abbrev pub default_max_clock_skew_ms : ℕ
default_max_clock_skew_ms = 300000

abbrev pub default_nonce_ttl_ms : ℕ
default_nonce_ttl_ms = 600000

-- `Math.abs(Date.now() - eventTime)`
abbrev pub skew : ℕ → Time → ℕ
skew now (since t) = (now - t) + (t - now)
skew now (before t) = now + t

-- `skewMs > maxClockSkewMs`, with the skew: NaN, for a text that is no date, is not greater.
abbrev pub out_of_window : ℕ → ℕ → Option Time → Option ℕ
out_of_window limit now none = none
out_of_window limit now (some t) = if ltb limit (skew now t) then some (skew now t) else none

module _ {S : Type 0} (ops : NonceOps S) where
  -- The last check; the store is none where the caller supplies none.
  unfoldable pub check_nonce : VerifyEventOptions → ℕ → String → Option S → Option S × Verdict
  check_nonce opts now key none =
      (none, if opts.require_nonce_store then replay_detected key else verified)
  check_nonce opts now key (some s) =
      let (s', is_new) = ops.set_nx now default_nonce_ttl_ms key s in
      (some s', if is_new then verified else replay_detected key)

module _ {S Rest : Type 0} (ops : NonceOps S) (sign_event : UnsignedEvent Rest → String → String)
    (parse : String → Option Time) where
  -- `now` is the time of the check of the clock, and `stored_at` that at which setNX reads it.
  unfoldable pub verify_event :
      VerifyEventOptions → ℕ → ℕ → String → DomainEvent Rest → Option S → Option S × Verdict
  unfolding check_nonce
  verify_event opts now stored_at secret e s =
      if elem e.unsigned.source valid_sources
      then (if str_eq (sign_event e.unsigned secret) e.signature
          then elim (out_of_window opts.max_clock_skew_ms now (parse e.unsigned.timestamp)) [
            | some ms ↦ (s, clock_skew ms)
            | none ↦ check_nonce ops opts stored_at e.unsigned.idempotency_key s
          ]
          else (s, invalid_signature))
      else (s, unknown_source e.unsigned.source)
