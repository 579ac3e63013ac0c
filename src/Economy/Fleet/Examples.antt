-- ===== src/Economy/Fleet/Examples.antt =====
-- A threshold of 10, a window of 100 ms and a cooldown of 50.
use agent_sdk.Common.{◌≡◌, ◌↔◌, ◌<◌, List, [], ◌∷◌, ◌++◌, true, false, refl, arith, some, none}
use agent_sdk.Resilience.Breaker.{opened, closed}
use agent_sdk.Economy.Fleet.{
  CircuitBreakerConfig, SpendEntry, FleetBreaker, can_proceed, record_cost, window_spend, total,
  evict,
}
use agent_sdk.Economy.Fleet.Window.{recent}
use agent_sdk.Economy.Fleet.Ledger.{
  World, Reach, here, next, waits, records, start, window_spend_of_ledger, closed_trips,
}
use agent_sdk.Economy.Fleet.Probe.{one_probe, asked}

abbrev config : CircuitBreakerConfig
config = record { threshold_usd = 10; window_ms = 100; cooldown_ms = 50 }

-- A cost of 4 at 5, and of 3 at 30; at 110 the first is stale.
abbrev two_costs : List SpendEntry
two_costs = record { ts = 5; cost_usd = 4 } ∷ (record { ts = 30; cost_usd = 3 } ∷ [])

abbrev spent : World
spent = record {
  breaker = record {
    state = closed;
    opened_at = none;
    half_open_consumed = false;
    window = two_costs;
  };
  clock = 110;
  ledger = two_costs;
}

to_spent : Reach config (start 5) spent
unfolding record_cost evict
to_spent = next (next (next (next here (records 4)) (waits 25)) (records 3)) (waits 80)

window_spend_of_ledger_example :
    (window_spend config 110 spent.breaker).1 ≡ total (recent config 110 two_costs)
window_spend_of_ledger_example = window_spend_of_ledger config 5 to_spent

spends_3 : (window_spend config 110 spent.breaker).1 ≡ 3
unfolding window_spend evict
spends_3 = refl

closed_trips_example :
    ((can_proceed config 110 spent.breaker).1 ≡ true)
    × (((record_cost config 110 8 spent.breaker).state ≡ opened)
        ↔ (10 < total (recent config 110 (two_costs ++ (record { ts = 110; cost_usd = 8 } ∷ [])))))
closed_trips_example = closed_trips config 5 8 to_spent refl

abbrev tripped : FleetBreaker
tripped = record {
  state = opened;
  opened_at = some 110;
  half_open_consumed = false;
  window = two_costs;
}

one_probe_example :
    ((can_proceed config 160 tripped).1 ≡ true)
    × ((can_proceed config 999999
          (asked config (170 ∷ (180 ∷ [])) (can_proceed config 160 tripped).0)).1
        ≡ false)
one_probe_example =
    one_probe config 110 160 (170 ∷ (180 ∷ [])) 999999 tripped refl refl (omega arith)
