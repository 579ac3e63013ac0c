-- ===== src/Remote/Veto/Delivery.antt =====
-- A veto reaches the call that it is for; and two waiters of one call.
use agent_sdk.Common.{◌≡◌, none, some, ◌<◌, ◌∷◌, arith, eq_refl}
use agent_sdk.Common.Assoc.{get, set, get-set, get-delete}
use agent_sdk.Remote.Veto.{VetoSignal, Channel, submit, await, time_out, ℕ}

-- A signal that comes right before its call's wait, while no other wait of the call is there,
-- resolves that wait at once, whatever the window, and is then gone from the buffer.
pub early_veto_delivered :
    (s : VetoSignal) (waiter window_ms : ℕ) (c : Channel)
    → get s.call_id c.waiters ≡ none
    → let c' = await waiter s.call_id window_ms (submit s c) in
      (c'.resolved ≡ (waiter, some s) ∷ c.resolved) × (get s.call_id c'.buffered ≡ none)
unfolding submit await
early_veto_delivered s waiter window_ms c h =
    let kept = get-set s.call_id s.call_id s c.buffered in
    let gone = get-delete s.call_id s.call_id (set s.call_id s c.buffered) in
    (ground (arith, kept, eq_refl s.call_id), ground (arith, kept, gone, eq_refl s.call_id))

-- A signal that comes right after its call began to wait resolves that wait, and the timer of that
-- wait then changes nothing.
pub late_veto_delivered :
    (s : VetoSignal) (waiter window_ms : ℕ) (c : Channel)
    → get s.call_id c.buffered ≡ none
    → 0 < window_ms
    → let c' = submit s (await waiter s.call_id window_ms c) in
      (c'.resolved ≡ (waiter, some s) ∷ c.resolved) × (time_out waiter s.call_id c' ≡ c')
unfolding submit await time_out
late_veto_delivered s waiter window_ms c h w =
    let there = get-set s.call_id s.call_id waiter c.waiters in
    let gone = get-delete s.call_id s.call_id (set s.call_id waiter c.waiters) in
    (ground (arith, there, eq_refl s.call_id), ground (arith, there, gone, eq_refl s.call_id))

-- Two waits of one call with no signal, after which the first one's timer fires: it resolves the
-- first wait, but takes the second one out of the channel. After that the second one's timer changes
-- nothing, and a veto of the call resolves no wait.
pub second_waiter_lost :
    (s : VetoSignal) (first second window_ms : ℕ) (c : Channel)
    → get s.call_id c.buffered ≡ none
    → 0 < window_ms
    → let c' =
        time_out first s.call_id
          (await second s.call_id window_ms (await first s.call_id window_ms c)) in
      (c'.resolved ≡ (first, none) ∷ c.resolved)
      × (time_out second s.call_id c' ≡ c')
      × ((submit s c').resolved ≡ c'.resolved)
unfolding submit await time_out
second_waiter_lost s first second window_ms c h w =
    let one = set s.call_id first c.waiters in
    let there = get-set s.call_id s.call_id second one in
    let gone = get-delete s.call_id s.call_id (set s.call_id second one) in
    (
      ground (arith, there, eq_refl s.call_id),
      ground (arith, there, gone, eq_refl s.call_id),
      ground (arith, there, gone, eq_refl s.call_id),
    )
