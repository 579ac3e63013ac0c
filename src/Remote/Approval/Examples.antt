-- ===== src/Remote/Approval/Examples.antt =====
-- A request that times out, and one that is approved before it does.
use agent_sdk.Common.{ℕ, ◌≡◌, List, [], ◌∷◌, none, some, true, false, refl}
use agent_sdk.Common.Assoc.{get, set}
use agent_sdk.Remote.Approval.{
  RemoteApprovalOptions, reject, Verdict, Queue, poll, timeout_verdict, settle, send, fire, resolve,
}
use agent_sdk.Remote.Approval.Final.{
  Op, sends, resolves, cancels, fires, disposes, apply_all, verdict_stands,
}
use agent_sdk.Remote.Approval.FailClosed.{approved_by_nobody}

abbrev options : RemoteApprovalOptions
options = record { timeout_ms = 100; on_timeout = reject }

abbrev asked : List (ℕ × Op)
asked =
    (0, sends "r" "deploy" 0)
    ∷ ((1, sends "s" "read" 50)
        ∷ ((2, resolves "s" true "phone" "ok" none)
            ∷ ((99, fires "r") ∷ ((100, fires "r") ∷ ((101, cancels "r") ∷ [])))))

approved_by_nobody_example : (timeout_verdict reject 100).approved ≡ false
unfolding poll apply_all get set settle send fire resolve
approved_by_nobody_example =
    approved_by_nobody options "r" asked (timeout_verdict reject 100) refl
      (tt, (tt, (refl, (tt, (tt, (tt, tt)))))) refl

abbrev granted : Verdict
granted = record {
  approved = true;
  by = "phone";
  rationale = "ok";
  at = 2;
  scope = none;
  timed_out = false;
}

abbrev answered : Queue
answered = ("s", record { action = "read"; verdict = some granted; deadline = none }) ∷ []

abbrev later : List (ℕ × Op)
later =
    (3, cancels "s")
    ∷ ((60, fires "s") ∷ ((61, resolves "s" false "cli" "no" none) ∷ ((62, disposes) ∷ [])))

verdict_stands_example : poll "s" (apply_all options later answered) ≡ some granted
unfolding poll get
verdict_stands_example =
    verdict_stands options "s" granted later answered (tt, (tt, (tt, (tt, tt)))) refl
