-- ===== src/Orchestration/Pool/Examples.antt =====
-- A pool with one slot and a queue of one.
use agent_sdk.Common.{arith, false}
use agent_sdk.Orchestration.Pool.{PoolOptions, acquire, release, some, []}
use agent_sdk.Orchestration.Pool.Accounts.{
  World, start, Reach, here, next, submits, settles, Balanced, Reach-Balanced,
}

abbrev options : PoolOptions
options = record { max_concurrent = 1; max_queue = some 1; reject_on_full = false }

-- Tasks 7 and 8 are taken, 9 is rejected, and 7 settles.
abbrev one_settled : World
one_settled = record {
  pool = record { active = 1; rejected = 1; completed = 1; queue = [] };
  submitted = 3;
}

to_one_settled : Reach options start one_settled
unfolding acquire release
to_one_settled =
    next (next (next (next here (submits 7)) (submits 8)) (submits 9)) (settles (omega arith))

Reach-Balanced_example : Balanced options one_settled
Reach-Balanced_example = Reach-Balanced options to_one_settled
