-- ===== src/Economy/Fleet/Ledger.antt =====
-- The breaker against a ledger of all costs: what its window adds up to, and when it is closed.
use agent_sdk.Common.{
  ℕ, Bool, if_cases, ltb, ◌≤◌, ◌+◌, ◌≡◌, List, [], ◌∷◌, ◌++◌, Option, none, some, true, false, refl,
  subst, sym, arith, ◌↔◌, ◌<◌,
}
use agent_sdk.Resilience.Breaker.{CircuitState, closed, opened, half_open}
use agent_sdk.Economy.Fleet.{
  is_cool, CircuitBreakerConfig, SpendEntry, FleetBreaker, fresh, evict, evicted, total,
  window_spend, can_proceed, record_cost, noted, judge_spend, wake, admit, reset,
}
use agent_sdk.Economy.Fleet.Window.{recent}
use agent_sdk.Economy.Fleet.Books.{
  Agrees, evict-Agrees, note-Agrees, later-Agrees, total-evict, evict-le, empty-Agrees,
}

-- The breaker, the time, and every cost since it was made or reset, in order.
pub record World : Type 0 where
  pub breaker : FleetBreaker
  pub clock : ℕ
  pub ledger : List SpendEntry

abbrev pub start : ℕ → World
start now = record { breaker = fresh; clock = now; ledger = [] }

pub data Step (o : CircuitBreakerConfig) (w : World) : World → Type 0 where
  waits : (ms : ℕ) → Step o w (record w { clock = w.clock + ms })
  asks : Step o w (record w { breaker = (can_proceed o w.clock w.breaker).0 })
  reads : Step o w (record w { breaker = (window_spend o w.clock w.breaker).0 })
  records :
      (cost : ℕ)
      → Step o w (record {
        breaker = record_cost o w.clock cost w.breaker;
        clock = w.clock;
        ledger = w.ledger ++ (record { ts = w.clock; cost_usd = cost } ∷ []);
      })
  resets : Step o w (record w { breaker = reset w.breaker; ledger = [] })

pub data Reach (o : CircuitBreakerConfig) (w : World) : World → Type 0 where
  here : Reach o w w
  next : {u v : World} → Reach o w u → Step o u v → Reach o w v

-- What each state says of the time at which the breaker opened and of the window.
abbrev pub StateFits : CircuitBreakerConfig → ℕ → CircuitState → Option ℕ → List SpendEntry → Type 0
StateFits o clock closed at window = (at ≡ none) × (total window ≤ o.threshold_usd)
StateFits o clock opened at window = (t : ℕ) × (at ≡ some t) × (t ≤ clock)
StateFits o clock half_open at window = (t : ℕ) × (at ≡ some t) × (t ≤ clock)

abbrev Fits : CircuitBreakerConfig → ℕ → FleetBreaker → Type 0
Fits o clock b = StateFits o clock b.state b.opened_at b.window

pub record Keeps (o : CircuitBreakerConfig) (w : World) : Type 0 where
  pub agrees : Agrees o w.clock w.breaker.window w.ledger
  pub fits : Fits o w.clock w.breaker

evicted-Fits :
    (o : CircuitBreakerConfig) (clock : ℕ) (state : CircuitState) (at : Option ℕ)
    (window window' : List SpendEntry)
    → total window' ≤ total window
    → StateFits o clock state at window
    → StateFits o clock state at window'
evicted-Fits o clock closed at window window' le f = (f.0, omega (arith, le, f.1))
evicted-Fits o clock opened at window window' le f = f
evicted-Fits o clock half_open at window window' le f = f

later-Fits :
    (o : CircuitBreakerConfig) (clock ms : ℕ) (state : CircuitState) (at : Option ℕ)
    (window : List SpendEntry)
    → StateFits o clock state at window
    → StateFits o (clock + ms) state at window
later-Fits o clock ms closed at window f = f
later-Fits o clock ms opened at window (t, e, le) = (t, e, omega (arith, le))
later-Fits o clock ms half_open at window (t, e, le) = (t, e, omega (arith, le))

abbrev breaker_of : CircuitState → Option ℕ → Bool → List SpendEntry → FleetBreaker
breaker_of state at consumed window = record {
  state = state;
  opened_at = at;
  half_open_consumed = consumed;
  window = window;
}

admit-Fits :
    (o : CircuitBreakerConfig) (clock : ℕ) (state : CircuitState) (at : Option ℕ) (consumed : Bool)
    (window : List SpendEntry)
    → StateFits o clock state at window
    → Fits o clock (admit o (wake o clock (breaker_of state at consumed window))).0
admit-Fits o clock closed at consumed window f = f
admit-Fits o clock half_open at true window f = f
admit-Fits o clock half_open at false window f = f
admit-Fits o clock opened at consumed window f =
    if_cases (λ (b : FleetBreaker). Fits o clock (admit o b).0) (is_cool o clock at) _ _ (λ _. f)
      (λ _. f)

judge-Fits :
    (o : CircuitBreakerConfig) (clock : ℕ) (state : CircuitState) (at : Option ℕ) (consumed : Bool)
    (window : List SpendEntry)
    → StateFits o clock state at []
    → Fits o clock (judge_spend o clock (breaker_of state at consumed window))
judge-Fits o clock closed at consumed window f =
    if_cases (Fits o clock) (ltb o.threshold_usd (total window)) _ _
      (λ _. (clock, refl, omega arith)) (λ h. (f.0, ground arith))
judge-Fits o clock half_open at consumed window f =
    if_cases (Fits o clock) (ltb o.threshold_usd (total window)) _ _
      (λ _. (clock, refl, omega arith)) (λ h. (refl, ground arith))
judge-Fits o clock opened at consumed window f = f

admit-window :
    (o : CircuitBreakerConfig) (clock : ℕ) (b : FleetBreaker)
    → (admit o (wake o clock b)).0.window ≡ b.window
admit-window o clock b = ground arith

judge-window :
    (o : CircuitBreakerConfig) (clock : ℕ) (b : FleetBreaker)
    → (judge_spend o clock b).window ≡ b.window
judge-window o clock b = ground arith

forget-Fits :
    (o : CircuitBreakerConfig) (clock : ℕ) (state : CircuitState) (at : Option ℕ)
    (window : List SpendEntry)
    → StateFits o clock state at window
    → StateFits o clock state at []
forget-Fits o clock state at window f = evicted-Fits o clock state at window [] (omega arith) f

can_proceed-Keeps :
    (o : CircuitBreakerConfig) (w : World)
    → Keeps o w
    → Keeps o (record w { breaker = (can_proceed o w.clock w.breaker).0 })
unfolding can_proceed
can_proceed-Keeps o w k =
    let b = evicted o w.clock w.breaker in
    record {
      agrees =
          subst (λ (l : List SpendEntry). Agrees o w.clock l w.ledger)
            (sym (admit-window o w.clock b))
            (evict-Agrees o w.clock w.breaker.window w.ledger k.agrees);
      fits = admit-Fits o w.clock b.state b.opened_at b.half_open_consumed b.window (
          evicted-Fits o w.clock b.state b.opened_at w.breaker.window b.window
            (evict-le o w.clock w.breaker.window w.ledger k.agrees) k.fits);
    }

record_cost-Keeps :
    (o : CircuitBreakerConfig) (w : World) (cost : ℕ)
    → Keeps o w
    → Keeps o (record {
      breaker = record_cost o w.clock cost w.breaker;
      clock = w.clock;
      ledger = w.ledger ++ (record { ts = w.clock; cost_usd = cost } ∷ []);
    })
unfolding record_cost
record_cost-Keeps o w cost k =
    let n = noted w.clock cost w.breaker in
    let b = evicted o w.clock n in
    let ledger' = w.ledger ++ (record { ts = w.clock; cost_usd = cost } ∷ []) in
    record {
      agrees =
          subst (λ (l : List SpendEntry). Agrees o w.clock l ledger')
            (sym (judge-window o w.clock b))
            (evict-Agrees o w.clock n.window ledger'
              (note-Agrees o w.clock cost w.breaker.window w.ledger k.agrees));
      fits =
          judge-Fits o w.clock b.state b.opened_at b.half_open_consumed b.window
            (forget-Fits o w.clock b.state b.opened_at w.breaker.window k.fits);
    }

Step-Keeps : (o : CircuitBreakerConfig) {w u : World} → Keeps o w → Step o w u → Keeps o u
unfolding window_spend evict
Step-Keeps o {w} k (waits ms) = record {
  agrees = later-Agrees o w.clock ms w.breaker.window w.ledger k.agrees;
  fits = later-Fits o w.clock ms w.breaker.state w.breaker.opened_at w.breaker.window k.fits;
}
Step-Keeps o {w} k asks = can_proceed-Keeps o w k
Step-Keeps o {w} k reads = record {
  agrees = evict-Agrees o w.clock w.breaker.window w.ledger k.agrees;
  fits =
      evicted-Fits o w.clock w.breaker.state w.breaker.opened_at w.breaker.window _
        (evict-le o w.clock w.breaker.window w.ledger k.agrees) k.fits;
}
Step-Keeps o {w} k (records cost) = record_cost-Keeps o w cost k
Step-Keeps o {w} k resets = record { agrees = empty-Agrees o _; fits = (refl, omega arith) }

pub Reach-Keeps :
    (o : CircuitBreakerConfig) (now : ℕ) {w : World} → Reach o (start now) w → Keeps o w
Reach-Keeps o now here = record { agrees = empty-Agrees o _; fits = (refl, omega arith) }
Reach-Keeps o now (next r s) = Step-Keeps o (Reach-Keeps o now r) s

-- However the breaker is asked, read and reset while costs are recorded and time passes: what it reads
-- as its spending is the sum of all costs of the last `windowMs`, since the last reset.
pub window_spend_of_ledger :
    (o : CircuitBreakerConfig) (now : ℕ) {w : World}
    → Reach o (start now) w
    → (window_spend o w.clock w.breaker).1 ≡ total (recent o w.clock w.ledger)
unfolding window_spend evict
window_spend_of_ledger o now {w} r =
    total-evict o w.clock w.breaker.window w.ledger (Reach-Keeps o now r).agrees

closed-Fits :
    (o : CircuitBreakerConfig) (clock : ℕ) (b : FleetBreaker)
    → b.state ≡ closed
    → Fits o clock b
    → total b.window ≤ o.threshold_usd
closed-Fits o clock b c f =
    (subst (λ (s : CircuitState). StateFits o clock s b.opened_at b.window) c f).1

judge_closed :
    (o : CircuitBreakerConfig) (clock : ℕ) (b : FleetBreaker)
    → b.state ≡ closed
    → ((judge_spend o clock b).state ≡ opened) ↔ (o.threshold_usd < total b.window)
judge_closed o clock b c = (λ h. ground arith, λ h. ground arith)

-- A closed breaker lets every cycle go on, and the next cost trips it exactly if the costs of the last
-- `windowMs` since the last reset, this one included, are then more than the threshold.
pub closed_trips :
    (o : CircuitBreakerConfig) (now cost : ℕ) {w : World}
    → Reach o (start now) w
    → w.breaker.state ≡ closed
    → let ledger' = w.ledger ++ (record { ts = w.clock; cost_usd = cost } ∷ []) in
      ((can_proceed o w.clock w.breaker).1 ≡ true)
      × (((record_cost o w.clock cost w.breaker).state ≡ opened)
          ↔ (o.threshold_usd < total (recent o w.clock ledger')))
unfolding can_proceed record_cost
closed_trips o now cost {w} r c =
    let k = Reach-Keeps o now r in
    let n = noted w.clock cost w.breaker in
    let spent =
      total-evict o w.clock n.window _
        (note-Agrees o w.clock cost w.breaker.window w.ledger k.agrees) in
    let less = evict-le o w.clock w.breaker.window w.ledger k.agrees in
    let within = closed-Fits o w.clock w.breaker c k.fits in
    (
      ground (arith, less, within),
      subst
          (λ (x : ℕ).
            ((judge_spend o w.clock (evicted o w.clock n)).state ≡ opened) ↔ (o.threshold_usd < x))
          spent (judge_closed o w.clock (evicted o w.clock n) c),
    )
