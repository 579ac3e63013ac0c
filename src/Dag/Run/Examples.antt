-- ===== src/Dag/Run/Examples.antt =====
-- Runs of a node with own-timeout retries.
use agent_sdk.Dag.Records.{is_settled}
use agent_sdk.Common.{◌≡◌, arith, true}
use agent_sdk.Dag.Samples.{node_a, plain_settings, says_timeout, surrounded}
use agent_sdk.Dag.Node.{resolve_retry_bound}
use agent_sdk.Dag.Run.Retry.{rerun, rerun_settles}

rerun_settles_example :
    is_settled (rerun plain_settings (λ n. surrounded says_timeout) 2 node_a).status ≡ true
unfolding resolve_retry_bound
rerun_settles_example =
    rerun_settles plain_settings (λ n. surrounded says_timeout) 2 node_a (omega arith) (omega arith)
