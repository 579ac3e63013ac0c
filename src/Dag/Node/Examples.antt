-- ===== src/Dag/Node/Examples.antt =====
-- Runs of the executor's outcomes.
use agent_sdk.Common.{ℕ, ◌≡◌, ◌⊎◌, refl, none, some}
use agent_sdk.Dag.Samples.{node_a, returns, surrounded, counts}
use agent_sdk.Dag.Node.{run_best_of_n, Settings, NodeRecord, call_executor}
use agent_sdk.Dag.Node.Sampling.{best_of_n_fail_closed, first_batch, all_candidates}

abbrev adaptive : Settings
adaptive = record {
  default_max_timeout_retries = none;
  best_of_n = some (record { initial_batch = some 2; early_accept_threshold = none });
}

-- Two of four samples first; the probe gives no score, so the other two run.
abbrev sampled : NodeRecord ℕ
sampled = run_best_of_n adaptive counts counts (returns 5) 4 node_a

sampled_four : (sampled.output ≡ some 4) × (sampled.attempts ≡ 4)
unfolding run_best_of_n call_executor
sampled_four = (refl, refl)

best_of_n_fail_closed_example :
    (a : ℕ) × (sampled.output ≡ some a)
    × (((counts (first_batch adaptive (surrounded (returns 5)) 4 node_a.spec)).accepted ≡ some a)
        ⊎ ((counts (all_candidates adaptive (surrounded (returns 5)) 4 node_a.spec)).accepted
            ≡ some a))
unfolding run_best_of_n call_executor
best_of_n_fail_closed_example =
    best_of_n_fail_closed adaptive (surrounded (returns 5)) 4 node_a refl
