-- ===== src/Remote/Veto/Examples.antt =====
-- A channel on which nothing has happened.
use agent_sdk.Common.{[], ◌≡◌, ◌∷◌, arith, refl}
use agent_sdk.Common.Assoc.{get}
use agent_sdk.Remote.Veto.{VetoSignal, Channel, submit, await, time_out, none}
use agent_sdk.Remote.Veto.Delivery.{second_waiter_lost}

abbrev quiet : Channel
quiet = record { buffered = []; waiters = []; resolved = [] }

abbrev veto : VetoSignal
veto = record { call_id = "call"; by = "phone"; reason = none }

second_waiter_lost_example :
    let c' = time_out 1 "call" (await 2 "call" 50 (await 1 "call" 50 quiet)) in
    (c'.resolved ≡ (1, none) ∷ [])
    × (time_out 2 "call" c' ≡ c')
    × ((submit veto c').resolved ≡ c'.resolved)
unfolding get
second_waiter_lost_example = second_waiter_lost veto 1 2 50 quiet refl (omega arith)
