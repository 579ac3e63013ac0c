-- ===== src/Orchestration/Pool.antt =====
-- src/orchestration/bulkhead.ts: the counters and the queue of a pool. A task is a number.
pub mod Accounts
mod Examples
use mathlib.Core.Option.{get_or}
use agent_sdk.Common.{
  ℕ, Option, length, Bool, List, if◌then◌else◌, ◌-◌, ◌*◌, leb, ltb, ◌+◌, ◌++◌, ◌&&◌, none, ◌∷◌, [],
  some,
}

pub record PoolOptions : Type 0 where
  pub max_concurrent : ℕ
  pub max_queue : Option ℕ
  pub reject_on_full : Bool

-- `opts.maxQueue ?? maxConcurrent * 10`
abbrev pub queue_limit : PoolOptions → ℕ
queue_limit o = get_or o.max_queue (o.max_concurrent * 10)

pub record Pool : Type 0 where
  pub active : ℕ
  pub rejected : ℕ
  pub completed : ℕ
  pub queue : List ℕ

pub record Metrics : Type 0 where
  pub active : ℕ
  pub queued : ℕ
  pub rejected : ℕ
  pub completed : ℕ

pub data Acquired : Type 0 where
  granted enqueued queue_full : Acquired

-- The promise's executor: it checks the queue's depth again.
pub enqueue : PoolOptions → ℕ → Pool → Pool × Acquired
enqueue o task p =
    if leb (queue_limit o) (length p.queue)
    then (record p { rejected = p.rejected + 1 }, queue_full)
    else (record p { queue = p.queue ++ (task ∷ []) }, enqueued)

unfoldable pub acquire : PoolOptions → ℕ → Pool → Pool × Acquired
unfolding enqueue
acquire o task p =
    if ltb p.active o.max_concurrent
    then (record p { active = p.active + 1 }, granted)
    else if o.reject_on_full && leb (queue_limit o) (length p.queue)
    then (record p { rejected = p.rejected + 1 }, queue_full)
    else enqueue o task p

pub try_dequeue : PoolOptions → Pool → Pool × Option ℕ
try_dequeue o p = if leb o.max_concurrent p.active then (p, none) else elim p.queue [
  | [] ↦ (p, none)
  | task ∷ rest ↦ (record p { active = p.active + 1; queue = rest }, some task)
]

unfoldable pub release : PoolOptions → Pool → Pool × Option ℕ
unfolding try_dequeue
release o p = try_dequeue o (record p { active = p.active - 1; completed = p.completed + 1 })

unfoldable pub metrics : Pool → Metrics
metrics p = record {
  active = p.active;
  queued = length p.queue;
  rejected = p.rejected;
  completed = p.completed;
}
