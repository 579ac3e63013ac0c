-- ===== src/Orchestration/Pool/Accounts.antt =====
-- What the pool's metrics say of the tasks that were submitted, and what `rejectOnFull` changes.
use agent_sdk.Common.{◌≡◌, arith, ◌<◌, ◌+◌, ◌≤◌, length-append, ◌∷◌}
use agent_sdk.Orchestration.Pool.{
  Pool, PoolOptions, queue_limit, enqueue, acquire, try_dequeue, release, metrics, ℕ, [], Bool,
}

-- The pool, and how many tasks were submitted to it.
pub record World : Type 0 where
  pub pool : Pool
  pub submitted : ℕ

abbrev pub start : World
start = record {
  pool = record { active = 0; rejected = 0; completed = 0; queue = [] };
  submitted = 0;
}

pub data Step (o : PoolOptions) (w : World) : World → Type 0 where
  submits :
      (task : ℕ)
      → Step o w (record { pool = (acquire o task w.pool).0; submitted = w.submitted + 1 })
  settles : 0 < w.pool.active → Step o w (record w { pool = (release o w.pool).0 })

pub data Reach (o : PoolOptions) (w : World) : World → Type 0 where
  here : Reach o w w
  next : {u v : World} → Reach o w u → Step o u v → Reach o w v

-- Every submitted task is counted once; the bounds hold; and a task waits only while all slots are
-- taken.
pub record Balanced (o : PoolOptions) (w : World) : Type 0 where
  pub accounts :
      let m = metrics w.pool in w.submitted ≡ m.active + m.queued + m.rejected + m.completed
  pub slots : (metrics w.pool).active ≤ o.max_concurrent
  pub waiting : (metrics w.pool).queued ≤ queue_limit o
  pub no_idle_slot : 0 < (metrics w.pool).queued → (metrics w.pool).active ≡ o.max_concurrent

start-Balanced : (o : PoolOptions) → Balanced o start
unfolding metrics
start-Balanced o = ground arith

acquire-Balanced :
    (o : PoolOptions) (task : ℕ) (w : World)
    → Balanced o w
    → Balanced o (record { pool = (acquire o task w.pool).0; submitted = w.submitted + 1 })
unfolding acquire metrics enqueue
acquire-Balanced o task w v = ground (arith, length-append w.pool.queue (task ∷ []))

release-Balanced :
    (o : PoolOptions) (w : World)
    → Balanced o w
    → 0 < w.pool.active
    → Balanced o (record w { pool = (release o w.pool).0 })
unfolding release metrics try_dequeue
release-Balanced o w v h = ground arith

Step-Balanced : (o : PoolOptions) {w u : World} → Balanced o w → Step o w u → Balanced o u
Step-Balanced o {w} v (submits task) = acquire-Balanced o task w v
Step-Balanced o {w} v (settles h) = release-Balanced o w v h

-- However tasks are submitted and settle: every submitted task is active, queued, rejected or
-- completed, and counted once; at most `maxConcurrent` are active and at most `maxQueue` queued;
-- and a task is queued only while all slots are taken.
pub Reach-Balanced : (o : PoolOptions) {w : World} → Reach o start w → Balanced o w
Reach-Balanced o here = start-Balanced o
Reach-Balanced o (next r s) = Step-Balanced o (Reach-Balanced o r) s

-- With `rejectOnFull` off a full queue rejects just the same: the option changes nothing.
pub acquire_whatever_reject_on_full :
    (o : PoolOptions) (reject : Bool) (task : ℕ) (p : Pool)
    → acquire (record o { reject_on_full = reject }) task p ≡ acquire o task p
unfolding acquire enqueue
acquire_whatever_reject_on_full o reject task p = ground arith
