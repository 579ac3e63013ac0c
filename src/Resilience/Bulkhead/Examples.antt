-- ===== src/Resilience/Bulkhead/Examples.antt =====
-- A bulkhead with one slot and room for one caller.
use agent_sdk.Common.{arith, ◌∷◌}
use agent_sdk.Resilience.Bulkhead.{BulkheadOptions, acquire, release, []}
use agent_sdk.Resilience.Bulkhead.Order.{
  World, start, Reach, here, next, arrives, finishes, IsFair, Reach-IsFair,
}

abbrev options : BulkheadOptions
options = record { max_concurrent = 1; max_queued = 1 }

-- Callers 7 and 8 come, 9 is rejected, and 7 finishes.
abbrev handed_over : World
handed_over = record {
  bulkhead = record { active = 1; queue = [] };
  started = 7 ∷ (8 ∷ []);
  accepted = 7 ∷ (8 ∷ []);
}

to_handed_over : Reach options start handed_over
unfolding acquire release
to_handed_over =
    next (next (next (next here (arrives 7)) (arrives 8)) (arrives 9)) (finishes (omega arith))

Reach-IsFair_example : IsFair options handed_over
Reach-IsFair_example = Reach-IsFair options to_handed_over
