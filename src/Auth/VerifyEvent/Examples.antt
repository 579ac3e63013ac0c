-- ===== src/Auth/VerifyEvent/Examples.antt =====
-- Events against the in-memory store. The MAC is the secret itself; the date is read from one digit.
use agent_sdk.Auth.VerifyEvent.Once.{accepted_once}
use agent_sdk.Common.Assoc.{Assoc, get, set}
use agent_sdk.Common.{String, Option, if◌then◌else◌, ◌≡◌, ◌∷◌, ◌≢◌, refl, arith}
use agent_sdk.Auth.VerifyEvent.{
  UnsignedEvent, DomainEvent, VerifyEventOptions, verify_event, ℕ, Time, true,
  default_max_clock_skew_ms, check_nonce, false, some, str_eq, since, [], none, verified,
}
use agent_sdk.Auth.NonceStore.{set_nx}
use agent_sdk.Auth.VerifyEvent.Memory.{memory, memory_laws}

abbrev mac : UnsignedEvent ℕ → String → String
mac e secret = secret

abbrev dates : String → Option Time
dates text =
    if str_eq text "now"
    then some (since 1000000)
    else if str_eq text "ahead"
    then some (since 1300000)
    else none

abbrev event : String → DomainEvent ℕ
event text = record {
  unsigned = record { source = "forge"; timestamp = text; idempotency_key = "n"; rest = 0 };
  signature = "secret";
}

abbrev strict : VerifyEventOptions
strict = record { max_clock_skew_ms = 299999; require_nonce_store = true }

abbrev default_options : VerifyEventOptions
default_options = record {
  max_clock_skew_ms = default_max_clock_skew_ms;
  require_nonce_store = false;
}

abbrev accepted : Option (Assoc ℕ)
accepted = some (("n", 1600000) ∷ [])

accepted_once_example :
    verify_event memory mac dates strict 1200000 1200001 "secret" (event "now") accepted
    ≢ (accepted, verified)
unfolding verify_event check_nonce set_nx get set
accepted_once_example =
    accepted_once memory memory_laws mac dates strict strict 1000000 1000000 1200000 1200001
      "secret" "secret" (event "now") (since 1000000) [] accepted accepted [] refl (omega arith)
      (omega arith) refl tt

-- With the default window, which is half the life of a nonce, there is one millisecond at which an
-- event from the window's far end is accepted a second time.
accepted_at_the_edge :
    (verify_event memory mac dates default_options 1600000 1600000 "secret"
      (event "ahead")
      (verify_event memory mac dates default_options 1000000 1000000 "secret"
        (event "ahead")
        (some [])).0).1
    ≡ verified
unfolding verify_event check_nonce set_nx get set
accepted_at_the_edge = refl

-- A text that is no date is never out of the window.
no_date_accepted :
    (verify_event memory mac dates default_options 99999999 99999999 "secret"
      (event "no date")
      (some [])).1
    ≡ verified
unfolding verify_event check_nonce set_nx get set
no_date_accepted = refl
