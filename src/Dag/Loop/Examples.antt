-- ===== src/Dag/Loop/Examples.antt =====
-- The fixpoint over the chain a, b.
use agent_sdk.Dag.Samples.{chain}
use agent_sdk.Dag.Loop.{block_all}
use agent_sdk.Dag.Loop.Progress.{NoneBlocked, block_all-NoneBlocked}

block_all-NoneBlocked_example : NoneBlocked (block_all 3 chain) (block_all 3 chain)
block_all-NoneBlocked_example = block_all-NoneBlocked chain
