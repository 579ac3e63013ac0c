-- ===== src/Patterns/SessionBreaker/Coherence.antt =====
-- What the circuit remembers of its last trip, over any operations of a session.
use agent_sdk.Common.{
  ◌≤◌, ◌≡◌, none, ◌≢◌, arith, some, refl, Option-cases, ◌+◌, inl, inr, ◌⊎◌, sym, Bool, ◌∙◌,
  if_cases, ltb,
}
use agent_sdk.Resilience.Breaker.{CircuitState, closed, opened, half_open}
use agent_sdk.Patterns.SessionBreaker.{
  Thresholds, Session, Violation, created, check, check_thresholds, trip_if_violated,
  trip_when_closed, do_trip, record_tokens, record_error, record_success, record_action, reset, ℕ,
  Option, get_or, probe_failed, waited,
}

pub data Step (t : Thresholds) (now : ℕ) (s : Session) : Session → Type 0 where
  checks : Step t now s (check t now s).0
  tokens : (count : ℕ) (cost : Option ℕ) → Step t now s (record_tokens t now count cost s)
  fails : Step t now s (record_error t now s)
  succeeds : Step t now s (record_success s)
  acts : Step t now s (record_action t now s)
  resets : Step t now s (reset s)

-- Operations one after the other, at times that never go back; the index is the last time.
pub data Reach (t : Thresholds) (born : ℕ) : ℕ → Session → Type 0 where
  here : Reach t born born (created born)
  next :
      {before : ℕ} {s u : Session} (now : ℕ)
      → Reach t born before s
      → before ≤ now
      → Step t now s u
      → Reach t born now u

-- A circuit that is not closed knows why it tripped and when, which is not in the future; a closed
-- one knows neither.
pub record IsCoherent (now : ℕ) (s : Session) : Type 0 where
  pub when_closed : s.state ≡ closed → (s.trip_reason ≡ none) × (s.opened_at ≡ none)
  pub when_tripped : s.state ≢ closed → (s.trip_reason ≢ none) × (s.opened_at ≢ none)
  pub in_the_past : (at : ℕ) → s.opened_at ≡ some at → at ≤ now
  pub started_before : s.session_start ≤ now

later-IsCoherent :
    (now later : ℕ) (s : Session) → now ≤ later → IsCoherent now s → IsCoherent later s
later-IsCoherent now later s h v = record {
  when_closed = v.when_closed;
  when_tripped = v.when_tripped;
  in_the_past = λ at e. omega (arith, v.in_the_past at e);
  started_before = omega (arith, v.started_before);
}

created-IsCoherent : (now : ℕ) → IsCoherent now (created now)
created-IsCoherent now = record {
  when_closed = λ c. (refl, refl);
  when_tripped = λ n. absurd (n refl);
  in_the_past = λ at e. absurd cc;
  started_before = omega arith;
}

do_trip-IsCoherent :
    (now : ℕ) (why : Violation) (s : Session)
    → IsCoherent now s
    → IsCoherent now (do_trip now why s)
unfolding do_trip
do_trip-IsCoherent now why s v = record {
  when_closed = λ c. ground (arith, v.when_closed);
  when_tripped = λ n. ground (arith, v.when_tripped);
  in_the_past = λ at e. ground (arith, v.in_the_past at);
  started_before = ground (arith, v.started_before);
}

trip_if_violated-IsCoherent :
    (t : Thresholds) (now : ℕ) (s : Session)
    → IsCoherent now s
    → IsCoherent now (trip_if_violated t now s).0
unfolding trip_if_violated
trip_if_violated-IsCoherent t now s v = elim (Option-cases (check_thresholds t now s)) [
  | inl n ↦ rw (n, trip_if_violated) v
  | inr (why, e) ↦ rw (e, trip_if_violated) (do_trip-IsCoherent now why s v)
]

trip_when_closed-IsCoherent :
    (t : Thresholds) (now : ℕ) (s : Session)
    → IsCoherent now s
    → IsCoherent now (trip_when_closed t now s)
unfolding trip_when_closed
trip_when_closed-IsCoherent t now s v =
    elim s.state
      as (λ c. IsCoherent now (elim c [ closed ↦ (trip_if_violated t now s).0 | _ ↦ s ])) [
        | closed ↦ trip_if_violated-IsCoherent t now s v
        | opened ↦ v
        | half_open ↦ v
      ]

-- Other counts leave the circuit as it is.
counted-IsCoherent :
    (now : ℕ) (s : Session) (used errors actions cost : ℕ)
    → IsCoherent now s
    → IsCoherent now (record s {
      token_count = used;
      consecutive_errors = errors;
      action_count = actions;
      estimated_cost = cost;
    })
counted-IsCoherent now s used errors actions cost v = record {
  when_closed = v.when_closed;
  when_tripped = v.when_tripped;
  in_the_past = v.in_the_past;
  started_before = v.started_before;
}

state-cases : (c : CircuitState) → (c ≡ closed) ⊎ ((c ≡ opened) ⊎ (c ≡ half_open))
state-cases closed = inl refl
state-cases opened = inr (inl refl)
state-cases half_open = inr (inr refl)

-- A circuit that stays tripped stays coherent, if it keeps what it knows.
tripped-IsCoherent :
    (now : ℕ) (s u : Session)
    → s.state ≢ closed
    → u.state ≢ closed
    → u.trip_reason ≡ s.trip_reason
    → u.opened_at ≡ s.opened_at
    → u.session_start ≡ s.session_start
    → IsCoherent now s
    → IsCoherent now u
tripped-IsCoherent now s u n m a b c v = record {
  when_closed = λ e. absurd (m e);
  when_tripped =
      λ _. (let (x, y) = v.when_tripped n in ((λ e. x (sym a ∙ e)), (λ e. y (sym b ∙ e))));
  in_the_past = λ at e. v.in_the_past at (sym b ∙ e);
  started_before = omega (arith, c, v.started_before);
}

check-IsCoherent :
    (t : Thresholds) (now : ℕ) (s : Session) → IsCoherent now s → IsCoherent now (check t now s).0
unfolding check
check-IsCoherent t now s v = elim (state-cases s.state) [
  | inl e ↦ rw (e, check) (trip_if_violated-IsCoherent t now s v)
  | inr (inl e) ↦
      (let P : Session × Bool → Type 0 = λ p. IsCoherent now p.0 in
        rw (e, check)
          (if_cases P (ltb (waited t now s.opened_at) t.reset_after_ms) _ _ (λ _. v)
            (λ _. tripped-IsCoherent now s _ (λ c. cc) (λ c. cc) refl refl refl v)))
  | inr (inr e) ↦ rw (e, check) v
]

record_error-IsCoherent :
    (t : Thresholds) (now : ℕ) (s : Session)
    → IsCoherent now s
    → IsCoherent now (record_error t now s)
unfolding record_error
record_error-IsCoherent t now s v =
    let errors = s.consecutive_errors + 1 in
    let c = counted-IsCoherent now s s.token_count errors s.action_count s.estimated_cost v in
    elim (state-cases s.state) [
      | inl e ↦ rw (e, record_error) (trip_when_closed-IsCoherent t now _ c)
      | inr (inl e) ↦ rw (e, record_error) (trip_when_closed-IsCoherent t now _ c)
      | inr (inr e) ↦ rw (e, record_error) (do_trip-IsCoherent now (probe_failed errors) _ c)
    ]

Step-IsCoherent :
    (t : Thresholds) (now : ℕ) {s u : Session}
    → IsCoherent now s
    → Step t now s u
    → IsCoherent now u
unfolding check record_tokens record_error record_success record_action reset
Step-IsCoherent t now {s} v checks = check-IsCoherent t now s v
Step-IsCoherent t now {s} v (tokens count cost) = trip_when_closed-IsCoherent t now _ (
    counted-IsCoherent now s (s.token_count + count) s.consecutive_errors s.action_count
      (s.estimated_cost + get_or cost 0) v)
Step-IsCoherent t now {s} v fails = record_error-IsCoherent t now s v
Step-IsCoherent t now {s} v succeeds = record {
  when_closed = λ c. ground (arith, v.when_closed);
  when_tripped = λ n. ground (arith, v.when_tripped);
  in_the_past = λ at e. ground (arith, v.in_the_past at);
  started_before = ground (arith, v.started_before);
}
Step-IsCoherent t now {s} v acts = trip_when_closed-IsCoherent t now _ (
    counted-IsCoherent now s s.token_count s.consecutive_errors (s.action_count + 1)
      s.estimated_cost v)
Step-IsCoherent t now {s} v resets = record {
  when_closed = λ c. (refl, refl);
  when_tripped = λ n. absurd (n refl);
  in_the_past = λ at e. absurd cc;
  started_before = v.started_before;
}

-- However the operations of a session follow each other, a circuit that is not closed knows why it
-- tripped, and when, which is not in the future; a closed one knows neither.
pub Reach-IsCoherent :
    (t : Thresholds) (born : ℕ) {now : ℕ} {s : Session} → Reach t born now s → IsCoherent now s
Reach-IsCoherent t born here = created-IsCoherent born
Reach-IsCoherent t born (next {before} {s} now r le st) =
    Step-IsCoherent t now (later-IsCoherent before now s le (Reach-IsCoherent t born r)) st
