-- ===== src/Dag/Replanning/Examples.antt =====
-- A run of the chain a, b in which a fails, and is replaced by a1 and an a that depends on it.
use agent_sdk.Dag.Replanning.Progress.{replans, Moves, replan_turn-Moves, replans-budget}
use agent_sdk.Dag.Manifest.Totals.{AddsUp}
use agent_sdk.Dag.Loop.Inputs.{DoneInput}
use agent_sdk.Dag.Loop.Slots.{count_running}
use agent_sdk.Dag.Loop.Upstream.{UpstreamDone}
use agent_sdk.Dag.Node.{is_own_timeout_deferral, apply_outcome, call_executor}
use agent_sdk.Dag.Run.{attempt_node, run_node, node_inputs}
use agent_sdk.Dag.Loop.{advance, any_pending, block_all, any_ready, dispatch}
use agent_sdk.Dag.Replan.{validate_replan, splice_replan, reuse_record}
use agent_sdk.Dag.Loop.Steps.{settles, leaves}
use agent_sdk.Dag.Validate.{assert_acyclic, validate}
use agent_sdk.Common.Text.{is_blank}
use agent_sdk.Dag.Replanning.Safety.{
  replan_start, RunOf, replanned_runs_after_upstream, replanned_never_stuck, replanned_inputs,
  replanned-AddsUp, replanned_running-le-limit, replanned-Sound,
}
use agent_sdk.Dag.Replanning.Steps.{ReplanReach, next, here, turns, meanwhile, answers, Sound}
use agent_sdk.Dag.Records.{status_of, all_done, specs}
use agent_sdk.Dag.Samples.{plain, plain_settings, node_b, surrounded, node_a, chain, fresh}
use agent_sdk.Dag.Replanning.{
  ReplanWorld, replan_turn, World, settle_replan, proposed, judge_replan, validate_replan,
  splice_replan,
}
use agent_sdk.Dag.{
  NodeRecord, Reply, DagNodeSpec, Surroundings, returned, failed, running, settled, said,
  NodeManifestEntry, done,
}
use agent_sdk.Common.{Option, ℕ, List, some, ◌∷◌, false, [], none, refl, ◌≡◌, subst, ◌≤◌, ◌+◌}

abbrev limit : Option ℕ
limit = some 1

abbrev fails : ℕ → Reply ℕ
fails attempt = record { timer_won = false; answer = returned failed none (some "no") }

abbrev replan : List (DagNodeSpec ℕ)
replan = plain "a1" [] ∷ (plain "a" ("a1" ∷ []) ∷ [])

abbrev given : (ℕ → Reply ℕ) → Surroundings ℕ
given replies = record (surrounded replies) { inputs = [] }

abbrev a_failed : NodeRecord ℕ
a_failed = record {
  spec = plain "a" [];
  status = settled failed;
  reason = some (said "no");
  output = none;
  attempts = 1;
  retries_used = 0;
}

run_node-fails :
    run_node plain_settings (given fails) none (record node_a { status = running }) ≡ a_failed
unfolding run_node is_own_timeout_deferral attempt_node apply_outcome call_executor
run_node-fails = refl

abbrev world : List (NodeRecord ℕ) → ℕ → ℕ → World ℕ
world rs in_flight finishing = record {
  records = rs;
  in_flight = in_flight;
  finishing = finishing;
  aborted = false;
  stopped = false;
  write_rejected = false;
}

abbrev failed_world : ReplanWorld ℕ
failed_world = record {
  base = world (a_failed ∷ (node_b ∷ [])) 0 0;
  budget = 1;
  offered = [];
  awaiting = none;
}

abbrev asked : ReplanWorld ℕ
asked = record failed_world { offered = "a" ∷ []; awaiting = some "a" }

abbrev new_a : NodeRecord ℕ
new_a = fresh (plain "a" ("a1" ∷ []))

abbrev new_a1 : NodeRecord ℕ
new_a1 = fresh (plain "a1" [])

abbrev replanned : List (NodeRecord ℕ) → ℕ → ReplanWorld ℕ
replanned rs in_flight = record {
  base = world rs in_flight 0;
  budget = 0;
  offered = [];
  awaiting = none;
}

replan_turn-failed : replan_turn limit failed_world ≡ asked
unfolding replan_turn any_pending
replan_turn-failed = refl

settle_replan-asked :
    settle_replan "a" (proposed replan) asked ≡ replanned (new_a ∷ (node_b ∷ (new_a1 ∷ []))) 0
unfolding settle_replan judge_replan validate_replan splice_replan reuse_record is_blank
    assert_acyclic
settle_replan-asked = refl

abbrev finishing_world : List (NodeRecord ℕ) → ReplanWorld ℕ
finishing_world rs = record failed_world { base = world rs 1 1 }

to_finishing :
    ReplanReach plain_settings limit
      (replan_start 1 chain)
      (finishing_world (a_failed ∷ (node_b ∷ [])))
unfolding replan_turn advance any_pending block_all any_ready dispatch status_of all_done
    node_inputs
to_finishing =
    subst
      (λ (r : NodeRecord ℕ).
        ReplanReach plain_settings limit (replan_start 1 chain)
          (finishing_world (r ∷ (node_b ∷ []))))
      run_node-fails
      (next (next here (turns refl refl)) (
        meanwhile (
          settles [] (node_b ∷ []) (record node_a { status = running }) (given fails) none refl refl
            (λ ok. refl))))

to_failed : ReplanReach plain_settings limit (replan_start 1 chain) failed_world
to_failed = next to_finishing (meanwhile (leaves 0 0 refl refl))

abbrev Reached : ReplanWorld ℕ → Type 0
Reached w = ReplanReach plain_settings limit (replan_start 1 chain) w

to_asked : Reached asked
to_asked = subst Reached replan_turn-failed (next to_failed (turns refl refl))

to_replanned : Reached (replanned (new_a ∷ (node_b ∷ (new_a1 ∷ []))) 0)
to_replanned =
    subst Reached settle_replan-asked (next to_asked (answers "a" (proposed replan) refl))

abbrev a1_running : List (NodeRecord ℕ)
a1_running = new_a ∷ (node_b ∷ (record new_a1 { status = running } ∷ []))

replan_turn-replanned :
    replan_turn limit (replanned (new_a ∷ (node_b ∷ (new_a1 ∷ []))) 0) ≡ replanned a1_running 1
unfolding replan_turn advance any_pending block_all any_ready status_of all_done dispatch
replan_turn-replanned = refl

to_a1_running : Reached (replanned a1_running 1)
to_a1_running = subst Reached replan_turn-replanned (next to_replanned (turns refl refl))

-- The journal recalls a1 as done, with 4.
abbrev recalled : NodeManifestEntry ℕ
recalled = record {
  id = "a1";
  status = done;
  reason = none;
  output = some 4;
  depends_on = [];
  attempts = 1;
}

abbrev a1_done : NodeRecord ℕ
a1_done = run_node plain_settings (given fails) (some recalled) (record new_a1 { status = running })

abbrev a_ready : List (NodeRecord ℕ)
a_ready = new_a ∷ (node_b ∷ (a1_done ∷ []))

to_a_ready : Reached (replanned a_ready 0)
unfolding node_inputs
to_a_ready =
    next
      (next to_a1_running (
        meanwhile (
          settles (new_a ∷ (node_b ∷ [])) [] (record new_a1 { status = running }) (given fails)
            (some recalled) refl refl (λ ok. refl))))
      (meanwhile (leaves 0 0 refl refl))

abbrev a_running : List (NodeRecord ℕ)
a_running = record new_a { status = running } ∷ (node_b ∷ (a1_done ∷ []))

replan_turn-ready : replan_turn limit (replanned a_ready 0) ≡ replanned a_running 1
unfolding replan_turn advance any_pending block_all any_ready status_of all_done dispatch run_node
replan_turn-ready = refl

to_a_running : Reached (replanned a_running 1)
to_a_running = subst Reached replan_turn-ready (next to_a_ready (turns refl refl))

run_to : (w : ReplanWorld ℕ) → Reached w → RunOf plain_settings limit 1 w
unfolding validate is_blank assert_acyclic
run_to w r = record {
  adr = "ADR-1";
  run_id = "run";
  has_verifier = false;
  nodes = specs chain;
  first_records = chain;
  accepted = refl;
  reached = r;
}

replanned_runs_after_upstream_example : UpstreamDone a_running a_running
replanned_runs_after_upstream_example =
    replanned_runs_after_upstream plain_settings limit 1 (replanned a_running 1)
      (run_to _ to_a_running) refl

replanned_running-le-limit_example : count_running a_running ≤ 1
replanned_running-le-limit_example =
    replanned_running-le-limit plain_settings 0 1 (replanned a_running 1) (run_to _ to_a_running)

replanned-Sound_example : Sound (specs a_running)
replanned-Sound_example =
    replanned-Sound plain_settings limit 1 (replanned a_running 1) (run_to _ to_a_running)

replanned_never_stuck_example : any_pending (block_all 3 failed_world.base.records) ≡ false
unfolding block_all any_ready status_of
replanned_never_stuck_example =
    replanned_never_stuck plain_settings limit 1 failed_world (run_to _ to_failed) refl refl

replanned_inputs_example : DoneInput a_running ("a1" ∷ []) "a1"
replanned_inputs_example =
    replanned_inputs plain_settings limit 1 (replanned a_running 1) [] (node_b ∷ (a1_done ∷ []))
      (record new_a { status = running }) "a1" (run_to _ to_a_running) refl refl refl refl

replanned-AddsUp_example : AddsUp a_ready
replanned-AddsUp_example =
    replanned-AddsUp plain_settings limit 1 (replanned a_ready 0) (run_to _ to_a_ready) refl

replans-budget_example : replans plain_settings limit to_replanned + 0 ≡ 1
replans-budget_example = replans-budget plain_settings limit 1 chain to_replanned

replan_turn-Moves_example : Moves (replan_turn limit failed_world)
replan_turn-Moves_example = replan_turn-Moves limit failed_world refl
