-- ===== src/Economy/Fleet/Probe.antt =====
-- The probe of a half-open breaker.
use agent_sdk.Common.{ℕ, ◌≡◌, List, [], ◌∷◌, true, false, arith, some, ◌≤◌, ◌+◌}
use agent_sdk.Resilience.Breaker.{opened, half_open}
use agent_sdk.Economy.Fleet.{CircuitBreakerConfig, FleetBreaker, can_proceed}

-- The breaker after it was asked at these times, the first of them first.
abbrev pub asked : CircuitBreakerConfig → List ℕ → FleetBreaker → FleetBreaker
asked o [] b = b
asked o (now ∷ nows) b = asked o nows (can_proceed o now b).0

probing_stays :
    (o : CircuitBreakerConfig) (now : ℕ) (b : FleetBreaker)
    → b.state ≡ half_open
    → b.half_open_consumed ≡ true
    → ((can_proceed o now b).0.state ≡ half_open)
      × ((can_proceed o now b).0.half_open_consumed ≡ true)
      × ((can_proceed o now b).1 ≡ false)
unfolding can_proceed
probing_stays o now b s c = ground arith

alone :
    (o : CircuitBreakerConfig) (nows : List ℕ) (now : ℕ) (b : FleetBreaker)
    → b.state ≡ half_open
    → b.half_open_consumed ≡ true
    → (can_proceed o now (asked o nows b)).1 ≡ false
alone o [] now b s c = (probing_stays o now b s c).2
alone o (n ∷ nows) now b s c =
    let (s', c', _) = probing_stays o n b s c in alone o nows now (can_proceed o n b).0 s' c'

woken :
    (o : CircuitBreakerConfig) (at now : ℕ) (b : FleetBreaker)
    → b.state ≡ opened
    → b.opened_at ≡ some at
    → at + o.cooldown_ms ≤ now
    → ((can_proceed o now b).1 ≡ true)
      × ((can_proceed o now b).0.state ≡ half_open)
      × ((can_proceed o now b).0.half_open_consumed ≡ true)
unfolding can_proceed
woken o at now b s e le = ground arith

-- When the cooldown of an open breaker is over, it lets one cycle go on, and refuses every later one,
-- however many ask and at whatever times, as long as no cost is recorded and it is not reset.
pub one_probe :
    (o : CircuitBreakerConfig) (at now : ℕ) (nows : List ℕ) (later : ℕ) (b : FleetBreaker)
    → b.state ≡ opened
    → b.opened_at ≡ some at
    → at + o.cooldown_ms ≤ now
    → ((can_proceed o now b).1 ≡ true)
      × ((can_proceed o later (asked o nows (can_proceed o now b).0)).1 ≡ false)
one_probe o at now nows later b s e le =
    let (goes, s', c') = woken o at now b s e le in
    (goes, alone o nows later (can_proceed o now b).0 s' c')
