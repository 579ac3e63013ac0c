-- ===== src/Remote/Approval.antt =====
-- src/remote/approval.ts: createRemoteApprovalChannel. The request ids of randomUUID are arguments, and a
-- timer that fires is an operation of its own.
pub mod Final
pub mod FailClosed
mod Examples
use agent_sdk.Common.{
  ℕ, ◌+◌, Bool, true, false, not, ◌&&◌, String, List, [], ◌∷◌, Option, none, some, leb, ltb,
  if◌then◌else◌,
}
use agent_sdk.Common.Assoc.{Assoc, get, set}

pub data RemoteTimeoutPolicy : Type 0 where
  approve reject : RemoteTimeoutPolicy

pub data Scope : Type 0 where
  session always : Scope

pub record Verdict : Type 0 where
  pub approved : Bool
  pub by : String
  pub rationale : String
  pub at : ℕ
  pub scope : Option Scope
  pub timed_out : Bool

-- `status` is "resolved" exactly if there is a verdict. `deadline` is that of the timer, none once it
-- is cleared.
pub record PendingApproval : Type 0 where
  pub action : String
  pub verdict : Option Verdict
  pub deadline : Option ℕ

pub record RemoteApprovalOptions : Type 0 where
  pub timeout_ms : ℕ
  pub on_timeout : RemoteTimeoutPolicy

abbrev pub Queue : Type 0
Queue = Assoc PendingApproval

-- The entry, once it has this verdict; a verdict that is there stays.
abbrev pub decided : Verdict → PendingApproval → PendingApproval
decided v e = elim e.verdict [ none ↦ record e { verdict = some v; deadline = none } | some _ ↦ e ]

abbrev pub settle_entry : String → Verdict → Option PendingApproval → Queue → Queue
unfolding set
settle_entry id v none queue = queue
settle_entry id v (some e) queue = set id (decided v e) queue

unfoldable pub settle : String → Verdict → Queue → Queue
unfolding get settle_entry
settle id v queue = settle_entry id v (get id queue) queue

-- What settle returns.
abbrev pub is_pending_approval : Option PendingApproval → Bool
is_pending_approval none = false
is_pending_approval (some e) = elim e.verdict [ none ↦ true | some _ ↦ false ]

abbrev pub timeout_of : RemoteApprovalOptions → ℕ → ℕ
timeout_of o ms = if ltb 0 ms then ms else o.timeout_ms

unfoldable pub send : RemoteApprovalOptions → ℕ → String → String → ℕ → Queue → Queue
unfolding set
send o now id action timeout_ms queue =
    set id
      (record { action = action; verdict = none; deadline = some (now + timeout_of o timeout_ms) })
      queue

-- The text says after how many milliseconds, too.
abbrev pub timeout_verdict : RemoteTimeoutPolicy → ℕ → Verdict
timeout_verdict approve now = record {
  approved = true;
  by = "timeout-policy";
  rationale = "auto-approve";
  at = now;
  scope = none;
  timed_out = false;
}
timeout_verdict reject now = record {
  approved = false;
  by = "timeout-policy";
  rationale = "auto-reject";
  at = now;
  scope = none;
  timed_out = true;
}

abbrev pub is_over : ℕ → Option PendingApproval → Bool
is_over now none = false
is_over now (some e) = elim e.deadline [ none ↦ false | some t ↦ leb t now ]

-- The timer of a request, which fires if it is set and over.
unfoldable pub fire : RemoteApprovalOptions → ℕ → String → Queue → Queue
unfolding get settle
fire o now id queue =
    if is_over now (get id queue) then settle id (timeout_verdict o.on_timeout now) queue else queue

abbrev pub cancel_verdict : ℕ → Verdict
cancel_verdict now = record {
  approved = false;
  by = "cancelled";
  rationale = "request cancelled";
  at = now;
  scope = none;
  timed_out = false;
}

unfoldable pub cancel : ℕ → String → Queue → Queue
unfolding settle
cancel now id queue = settle id (cancel_verdict now) queue

unfoldable pub resolve : ℕ → String → Bool → String → String → Option Scope → Queue → Queue × Bool
unfolding get settle
resolve now id approved by note scope queue = (
  settle id
      (record {
        approved = approved;
        by = by;
        rationale = note;
        at = now;
        scope = scope;
        timed_out = false;
      })
      queue,
  is_pending_approval (get id queue),
)

abbrev pub verdict_of : Option PendingApproval → Option Verdict
verdict_of none = none
verdict_of (some e) = e.verdict

unfoldable pub poll : String → Queue → Option Verdict
unfolding get
poll id queue = verdict_of (get id queue)

-- Every timer is cleared.
pub dispose : Queue → Queue
dispose [] = []
dispose ((id, e) ∷ queue) = (id, record e { deadline = none }) ∷ dispose queue
