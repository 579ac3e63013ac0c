-- ===== src/Dag/Replanning/Safety.antt =====
-- What holds of every run of `runDag`, however the turns of the loop, the nodes in flight, an abort and
-- the replanner's answers interleave.
use agent_sdk.Dag.Loop.Progress.{block_all-NoneBlocked}
use agent_sdk.Dag.Loop.Settling.{no_pending_at_fixpoint, Ranked}
use agent_sdk.Dag.Loop.Evolution.{block_all-Quiet}
use agent_sdk.Dag.Loop.Inputs.{DoneInput, inputs_of_running}
use agent_sdk.Dag.Loop.{any_ready, any_pending}
use agent_sdk.Dag.Validate.{validate}
use agent_sdk.Dag.Loop.Slots.{count_running, count_running-block_all}
use agent_sdk.Dag.Manifest.Totals.{AddsUp, entries-AddsUp}
use agent_sdk.Dag.Validate.Accepted.{validate_accepts, validated-Distinct}
use agent_sdk.Dag.Loop.Safety.{start, start-IsValid, specs-Quiet}
use agent_sdk.Dag.Loop.Upstream.{UpstreamDone}
use agent_sdk.Dag.Replanning.Steps.{IsSteady, Sound, Reach-IsSteady, ReplanReach}
use agent_sdk.Dag.Replanning.{ReplanWorld, specs, block_all}
use agent_sdk.Dag.{Settings, NodeRecord, DagNodeSpec, running}
use agent_sdk.Common.{
  ℕ, List, Option, String, some, ◌≡◌, Bool, suc, ◌++◌, [], length, ◌∷◌, none, ◌≤◌, arith, inr,
  false, elem, true, subst, sym,
}

module _ {A : Type 0} where
  -- The world in which `execute` starts, with `maxReplans`, or 0 without a replanner.
  abbrev pub replan_start : ℕ → List (NodeRecord A) → ReplanWorld A
  replan_start max_replans rs = record {
    base = start rs;
    budget = max_replans;
    offered = [];
    awaiting = none;
  }

  -- A run of an accepted graph: the state that is reached.
  pub record RunOf (input : Settings) (limit : Option ℕ) (max_replans : ℕ) (w : ReplanWorld A)
      : Type 0 where
    pub adr : String
    pub run_id : String
    pub has_verifier : Bool
    pub nodes : List (DagNodeSpec A)
    pub first_records : List (NodeRecord A)
    pub accepted : validate adr run_id has_verifier nodes ≡ inr first_records
    pub reached : ReplanReach input limit (replan_start max_replans first_records) w

  run-IsSteady :
      (input : Settings) (limit : Option ℕ) (max_replans : ℕ) (w : ReplanWorld A)
      → RunOf input limit max_replans w
      → IsSteady limit w
  run-IsSteady input limit max_replans w run =
      let (same, pending_all, ranked) =
        validate_accepts run.adr run.run_id run.has_verifier run.nodes run.first_records
          run.accepted in
      Reach-IsSteady input limit
        (record {
          base_valid = start-IsValid limit run.first_records pending_all;
          sound = (
            validated-Distinct run.adr run.run_id run.has_verifier run.nodes run.first_records
                run.accepted,
            ranked,
          );
          awaited = tt;
        })
        run.reached

  -- In a run of a graph that runDag accepts, whatever the replanner answers and however the turns of the
  -- loop, the nodes in flight, runs that reject before they settle their record, and an abort
  -- interleave: as long as `journal.record` has not rejected for a node, a node runs, or is
  -- done, only if all nodes that it depends on are done.
  pub replanned_runs_after_upstream :
      (input : Settings) (limit : Option ℕ) (max_replans : ℕ) (w : ReplanWorld A)
      → RunOf input limit max_replans w
      → w.base.write_rejected ≡ false
      → UpstreamDone w.base.records w.base.records
  replanned_runs_after_upstream input limit max_replans w run ok =
      (run-IsSteady input limit max_replans w run).base_valid.upstream_done ok

  -- In such a run at most `maxConcurrency` nodes run at once, if that is positive.
  pub replanned_running-le-limit :
      (input : Settings) (limit max_replans : ℕ) (w : ReplanWorld A)
      → RunOf input (some (suc limit)) max_replans w
      → count_running w.base.records ≤ suc limit
  replanned_running-le-limit input limit max_replans w run =
      let v = (run-IsSteady input (some (suc limit)) max_replans w run).base_valid in
      omega (arith, v.slots, v.within)

  -- In such a run the graph has at all times distinct ids, no missing dependency and no cycle,
  -- whatever nodes the replanner proposes.
  pub replanned-Sound :
      (input : Settings) (limit : Option ℕ) (max_replans : ℕ) (w : ReplanWorld A)
      → RunOf input limit max_replans w
      → Sound (specs w.base.records)
  replanned-Sound input limit max_replans w run = (run-IsSteady input limit max_replans w run).sound

  -- In such a run, whenever nothing is in flight and, after the fixpoint, no node is ready, no node is
  -- pending either. So the branch that defers with "unresolved dependency" never has a node to
  -- defer.
  pub replanned_never_stuck :
      (input : Settings) (limit : Option ℕ) (max_replans : ℕ) (w : ReplanWorld A)
      → RunOf input limit max_replans w
      → w.base.in_flight ≡ 0
      → let out = block_all (suc (length w.base.records)) w.base.records in
        any_ready out out ≡ false → any_pending out ≡ false
  replanned_never_stuck input limit max_replans w run idle unready =
      let v = run-IsSteady input limit max_replans w run in
      let fuel = suc (length w.base.records) in
      let out = block_all fuel w.base.records in
      let same : specs out ≡ specs w.base.records =
        specs-Quiet w.base.records out (block_all-Quiet fuel w.base.records) in
      let (rank, k) = v.sound.1 in
      no_pending_at_fixpoint rank out
        (subst (λ (ns : List (DagNodeSpec A)). Ranked rank ns ns) (sym same) k)
        (block_all-NoneBlocked w.base.records) unready
        (omega (arith, v.base_valid.slots, idle, count_running-block_all fuel w.base.records))

  -- In such a run, as long as `journal.record` has not rejected for a node, a running node finds each of
  -- its dependencies done, and its input from it is that record's output.
  pub replanned_inputs :
      (input : Settings) (limit : Option ℕ) (max_replans : ℕ) (w : ReplanWorld A)
      (before after : List (NodeRecord A)) (r : NodeRecord A) (d : String)
      → RunOf input limit max_replans w
      → w.base.write_rejected ≡ false
      → w.base.records ≡ before ++ (r ∷ after)
      → r.status ≡ running
      → elem d r.spec.depends_on ≡ true
      → DoneInput w.base.records r.spec.depends_on d
  replanned_inputs input limit max_replans w before after r d run ok =
      inputs_of_running w.base.records before after r d
        (replanned_runs_after_upstream input limit max_replans w run ok)

  -- In such a run, whenever nothing is in flight, the manifest counts every node once: the summary's
  -- parts add up to its total, which is the number of the records; it counts as done the records that are
  -- done, as failed those that have failed, and as deferred those that are deferred or still pending;
  -- and the run's status is "DONE" exactly if a record is done.
  pub replanned-AddsUp :
      (input : Settings) (limit : Option ℕ) (max_replans : ℕ) (w : ReplanWorld A)
      → RunOf input limit max_replans w
      → w.base.in_flight ≡ 0
      → AddsUp w.base.records
  replanned-AddsUp input limit max_replans w run idle =
      let v = (run-IsSteady input limit max_replans w run).base_valid in
      entries-AddsUp w.base.records (omega (arith, v.slots, idle))
