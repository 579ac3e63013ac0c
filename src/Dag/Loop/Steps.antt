-- ===== src/Dag/Loop/Steps.antt =====
-- What the nodes in flight do while the loop waits, as steps, and what holds after any of them.
use agent_sdk.Common.{
  String, ◌<◌, refl, [], ◌==◌, ℕ, suc, ◌+◌, ◌≡◌, subst, true, false, List, ◌∷◌, ◌++◌, Option, arith,
  Pointwise, ap, if_cases,
}
use agent_sdk.Dag.{
  running, unresolved, NodeRecord, Surroundings, NodeManifestEntry, Settings, Reason,
}
use agent_sdk.Dag.Records.{one_running, is_settled}
use agent_sdk.Dag.Node.{is_own_timeout_deferral}
use agent_sdk.Dag.Run.{run_node, node_inputs, execute_node, retry_or_settle}
use agent_sdk.Dag.Run.Spec.{
  spec-run_node, one_running-run_node, one_running-execute_node, one_running-retry,
  execute_node-Settles,
}
use agent_sdk.Dag.Loop.{World, any_ready, dispatch, defer_pending, block_all, advance, caught}
use agent_sdk.Dag.Loop.Evolution.{
  Quiet, all-Quiet-at, all-Evolves, defer_pending-Quiet, block_all-Quiet, dispatch-Evolves,
}
use agent_sdk.Dag.Loop.Upstream.{UpstreamDone, UpstreamDone-Evolves}
use agent_sdk.Dag.Loop.Slots.{
  WithinLimit-down, WithinLimit, count_running, count_running-append, count_running-defer_pending,
  count_running-block_all, count_running-dispatch, dispatch-WithinLimit,
}

module _ {A : Type 0} where
  -- What goes on while the loop waits. A node in flight settles its record, by the whole of its run or
  -- by `executeNode`, after which its run resumes with the own-timeout retry; it read its inputs
  -- when it began, and they are the same now, since its dependencies stay done while no
  -- write has rejected. A run rejects before its record is settled (the journal's recall, the test of
  -- `runIf` or the verifier throws), or after that, by its write to the journal. A promise that is over
  -- leaves `inFlight`; the caller aborts.
  pub data Background (input : Settings) (w : World A) : World A → Type 0 where
    settles :
        (before after : List (NodeRecord A)) (r : NodeRecord A) (s : Surroundings A)
        (recalled : Option (NodeManifestEntry A))
        → w.records ≡ before ++ (r ∷ after)
        → r.status ≡ running
        → (w.write_rejected ≡ false → s.inputs ≡ node_inputs w.records r.spec.depends_on [])
        → Background input w (record w {
          records = before ++ (run_node input s recalled r ∷ after);
          finishing = suc w.finishing;
        })
    executes :
        (before after : List (NodeRecord A)) (r : NodeRecord A) (s : Surroundings A)
        → w.records ≡ before ++ (r ∷ after)
        → r.status ≡ running
        → (w.write_rejected ≡ false → s.inputs ≡ node_inputs w.records r.spec.depends_on [])
        → Background input w (record w {
          records = before ++ (execute_node input s r ∷ after);
          finishing = suc w.finishing;
        })
    resumes :
        (before after : List (NodeRecord A)) (r : NodeRecord A)
        → w.records ≡ before ++ (r ∷ after)
        → is_settled r.status ≡ true
        → 0 < w.finishing
        → Background input w (record w { records = before ++ (retry_or_settle input r ∷ after) })
    breaks :
        (before after : List (NodeRecord A)) (r : NodeRecord A) (text : String)
        → w.records ≡ before ++ (r ∷ after)
        → r.status ≡ running
        → Background input w
            (record w { records = before ++ (caught text r ∷ after); finishing = suc w.finishing })
    rejects :
        (before after : List (NodeRecord A)) (r : NodeRecord A) (text : String)
        → w.records ≡ before ++ (r ∷ after)
        → is_settled r.status ≡ true
        → 0 < w.finishing
        → Background input w
            (record w { records = before ++ (caught text r ∷ after); write_rejected = true })
    leaves :
        (others : ℕ) (n : ℕ)
        → w.finishing ≡ suc others
        → w.in_flight ≡ suc n
        → Background input w (record w { finishing = others; in_flight = n })
    aborts : Background input w (record w { aborted = true })

  pub record IsValid (limit : Option ℕ) (w : World A) : Type 0 where
    pub upstream_done : w.write_rejected ≡ false → UpstreamDone w.records w.records
    pub slots : count_running w.records + w.finishing ≡ w.in_flight
    pub within : WithinLimit limit w.in_flight

  pub Quiet-UpstreamDone :
      (rs ts : List (NodeRecord A))
      → Pointwise Quiet rs ts
      → UpstreamDone rs rs
      → UpstreamDone ts ts
  Quiet-UpstreamDone rs ts q u = UpstreamDone-Evolves rs ts (all-Evolves rs rs ts q) u

  pub defer_pending-IsValid :
      (limit : Option ℕ) (w : World A) (why : Reason)
      → IsValid limit w
      → IsValid limit (record w { records = defer_pending why w.records; stopped = true })
  defer_pending-IsValid limit w why v = record {
    upstream_done = λ ok.
        Quiet-UpstreamDone w.records _ (defer_pending-Quiet why w.records) (v.upstream_done ok);
    slots = omega (arith, v.slots, count_running-defer_pending why w.records);
    within = v.within;
  }

  pub block_all-IsValid :
      (limit : Option ℕ) (w : World A) (fuel : ℕ)
      → IsValid limit w
      → IsValid limit (record w { records = block_all fuel w.records })
  block_all-IsValid limit w fuel v = record {
    upstream_done =
        λ ok. Quiet-UpstreamDone w.records _ (block_all-Quiet fuel w.records) (v.upstream_done ok);
    slots = omega (arith, v.slots, count_running-block_all fuel w.records);
    within = v.within;
  }

  dispatch-IsValid :
      (limit : Option ℕ) (w : World A)
      → IsValid limit w
      → IsValid limit (record w {
        records = (dispatch limit w.records w.in_flight w.records).0;
        in_flight = (dispatch limit w.records w.in_flight w.records).1;
      })
  dispatch-IsValid limit w v = record {
    upstream_done = λ ok.
        UpstreamDone-Evolves w.records _ (dispatch-Evolves limit w.records w.in_flight w.records)
          (v.upstream_done ok);
    slots = omega (arith, v.slots, count_running-dispatch limit w.records w.in_flight w.records);
    within = dispatch-WithinLimit limit w.records w.in_flight w.records v.within;
  }

  pub advance-IsValid :
      (limit : Option ℕ) (w : World A) → IsValid limit w → IsValid limit (advance limit w)
  unfolding advance
  advance-IsValid limit w v =
      if_cases (IsValid limit) (any_ready w.records w.records) _ _ (λ _. dispatch-IsValid limit w v)
        (λ _.
          if_cases (IsValid limit) (w.in_flight == 0) _ _
            (λ _. defer_pending-IsValid limit w unresolved v) (λ _. v))

  running-Quiet : (r r' : NodeRecord A) → r'.spec ≡ r.spec → r.status ≡ running → Quiet r r'
  running-Quiet r r' same h = record {
    same_spec = same;
    done_kept = λ e. ground arith;
    active_kept = λ e. ground arith;
  }

  pub run_node-Quiet :
      (input : Settings) (s : Surroundings A) (recalled : Option (NodeManifestEntry A))
      (r : NodeRecord A)
      → r.status ≡ running
      → Quiet r (run_node input s recalled r)
  run_node-Quiet input s recalled r h = running-Quiet r _ (spec-run_node input s recalled r) h

  pub execute_node-Quiet :
      (input : Settings) (s : Surroundings A) (r : NodeRecord A)
      → r.status ≡ running
      → Quiet r (execute_node input s r)
  execute_node-Quiet input s r h = running-Quiet r _ (execute_node-Settles input s r).0 h

  pub caught-Quiet :
      (text : String) (r : NodeRecord A) → r.status ≡ running → Quiet r (caught text r)
  unfolding caught
  caught-Quiet text r h = running-Quiet r _ refl h

  pub retry_or_settle-Quiet :
      (input : Settings) (r : NodeRecord A) → Quiet r (retry_or_settle input r)
  unfolding retry_or_settle is_own_timeout_deferral
  retry_or_settle-Quiet input r = record {
    same_spec = ground arith;
    done_kept = λ e. ground arith;
    active_kept = λ e. ground arith;
  }

  -- A node that runs becomes settled, or pending, and its promise is over.
  finished-IsValid :
      (limit : Option ℕ) (w : World A) (before after : List (NodeRecord A)) (r r' : NodeRecord A)
      → w.records ≡ before ++ (r ∷ after)
      → r.status ≡ running
      → Quiet r r'
      → one_running r'.status ≡ 0
      → IsValid limit w
      → IsValid limit (record w { records = before ++ (r' ∷ after); finishing = suc w.finishing })
  finished-IsValid limit w before after r r' at h q idle v = record {
    upstream_done = λ ok.
        Quiet-UpstreamDone _ _ (all-Quiet-at before after r r' q)
          (subst (λ (rs : List (NodeRecord A)). UpstreamDone rs rs) at (v.upstream_done ok));
    slots = omega (
      arith,
      v.slots,
      ap (λ (rs : List (NodeRecord A)). count_running rs) at,
      count_running-append before (r ∷ after),
      count_running-append before (r' ∷ after),
      idle,
      ap one_running h,
    );
    within = v.within;
  }

  -- A record that is settled becomes another that does not run.
  same_count :
      (before after : List (NodeRecord A)) (r r' : NodeRecord A)
      → is_settled r.status ≡ true
      → one_running r'.status ≡ 0
      → count_running (before ++ (r' ∷ after)) ≡ count_running (before ++ (r ∷ after))
  same_count before after r r' s idle =
      let was : one_running r.status ≡ 0 = ground arith in
      omega (
        arith,
        count_running-append before (r ∷ after),
        count_running-append before (r' ∷ after),
        idle,
        was,
      )

  pub Background-IsValid :
      (input : Settings) (limit : Option ℕ) {w u : World A}
      → IsValid limit w
      → Background input w u
      → IsValid limit u
  Background-IsValid input limit {w} v (settles before after r s recalled at h given) =
      finished-IsValid limit w before after r _ at h (run_node-Quiet input s recalled r h)
        (one_running-run_node input s recalled r) v
  Background-IsValid input limit {w} v (executes before after r s at h given) =
      finished-IsValid limit w before after r _ at h (execute_node-Quiet input s r h)
        (one_running-execute_node input s r) v
  Background-IsValid input limit {w} v (breaks before after r text at h) =
      finished-IsValid limit w before after r _ at h (caught-Quiet text r h) (unfold caught in refl)
        v
  Background-IsValid input limit {w} v (resumes before after r at h waits) = record {
    upstream_done = λ ok.
        Quiet-UpstreamDone _ _
          (all-Quiet-at before after r (retry_or_settle input r) (retry_or_settle-Quiet input r))
          (subst (λ (rs : List (NodeRecord A)). UpstreamDone rs rs) at (v.upstream_done ok));
    slots = omega (
      arith,
      v.slots,
      ap (λ (rs : List (NodeRecord A)). count_running rs) at,
      same_count before after r (retry_or_settle input r) h (one_running-retry r input h),
    );
    within = v.within;
  }
  Background-IsValid input limit {w} v (rejects before after r text at h waits) = record {
    upstream_done = λ ok. absurd cc;
    slots = omega (
      arith,
      v.slots,
      ap (λ (rs : List (NodeRecord A)). count_running rs) at,
      same_count before after r (caught text r) h (unfold caught in refl),
    );
    within = v.within;
  }
  Background-IsValid input limit {w} v (leaves others n f g) = record {
    upstream_done = v.upstream_done;
    slots = omega (arith, v.slots);
    within = WithinLimit-down limit w.in_flight n v.within (omega arith);
  }
  Background-IsValid input limit v aborts = record {
    upstream_done = v.upstream_done;
    slots = v.slots;
    within = v.within;
  }
