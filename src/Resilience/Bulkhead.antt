-- ===== src/Resilience/Bulkhead.antt =====
-- src/resilience/bulkhead.ts: the counter and the queue of one wrapped function. A caller is a
-- number; the thunk that the source queues for it counts it as active and lets it go on.
pub mod Order
mod Examples
use agent_sdk.Common.{
  ℕ, Option, List, if◌then◌else◌, ltb, ◌+◌, leb, length, ◌++◌, ◌∷◌, [], ◌-◌, none, some,
}

pub record BulkheadOptions : Type 0 where
  pub max_concurrent : ℕ
  pub max_queued : ℕ

pub record Bulkhead : Type 0 where
  pub active : ℕ
  pub queue : List ℕ

-- `full` is BulkheadFullError, with the queue's depth.
pub data Acquired : Type 0 where
  granted queued : Acquired
  full : ℕ → Acquired

unfoldable pub acquire : BulkheadOptions → ℕ → Bulkhead → Bulkhead × Acquired
acquire o caller b =
    if ltb b.active o.max_concurrent
    then (record b { active = b.active + 1 }, granted)
    else if leb o.max_queued (length b.queue)
    then (b, full (length b.queue))
    else (record b { queue = b.queue ++ (caller ∷ []) }, queued)

-- The next caller of the queue, if there is one, goes on.
unfoldable pub release : Bulkhead → Bulkhead × Option ℕ
release b = elim b.queue [
  | [] ↦ (record { active = b.active - 1; queue = [] }, none)
  | next ∷ rest ↦ (record { active = b.active - 1 + 1; queue = rest }, some next)
]
