-- ===== src/Remote/Approval/FailClosed.antt =====
-- A request that nobody approves.
use agent_sdk.Common.{
  ℕ, true, false, String, str_eq, str_eq-cases, eq_refl, List, [], ◌∷◌, Option, none, some,
  Option-cases, All, ◌≡◌, ◌∙◌, refl, ap, sym, subst, inl, inr, if_cases, arith, ◌+◌,
}
use agent_sdk.Common.Assoc.{get, set, get-set}
use agent_sdk.Remote.Approval.{
  RemoteApprovalOptions, reject, RemoteTimeoutPolicy, Verdict, PendingApproval, Queue, settle, send,
  timeout_verdict, fire, is_over, cancel, resolve, verdict_of, poll, timeout_of,
}
use agent_sdk.Remote.Approval.Final.{
  Op, sends, resolves, cancels, fires, disposes, apply, apply_all, first_of, settle_same,
  settle_other, send_other, dispose_same,
}

-- An operation that does not approve the request `id`.
abbrev pub NotApproved : String → Op → Type 0
NotApproved id (resolves id' true by note scope) = str_eq id' id ≡ false
NotApproved id op = Unit

abbrev pub Unapproved : Option Verdict → Type 0
Unapproved none = Unit
Unapproved (some w) = w.approved ≡ false

first-Unapproved :
    (o : Option PendingApproval) (v : Verdict)
    → v.approved ≡ false
    → Unapproved (verdict_of o)
    → Unapproved (first_of o v)
first-Unapproved none v f u = tt
first-Unapproved (some e) v f u = elim (Option-cases e.verdict) [
  | inl n ↦ rw n f
  | inr (w, n) ↦ rw n (rw n at u)
]

settle-Unapproved :
    (id id' : String) (v : Verdict) (queue : Queue)
    → v.approved ≡ false
    → Unapproved (poll id queue)
    → Unapproved (poll id (settle id' v queue))
unfolding poll
settle-Unapproved id id' v queue f u = elim (str_eq-cases id' id) [
  | inr (p, e, e') ↦ subst Unapproved (sym (settle_other id id' v queue e)) u
  | inl (p, e, e') ↦
      subst (λ (j : String). Unapproved (poll id (settle j v queue))) (sym p)
        (subst Unapproved (sym (settle_same id v queue)) (first-Unapproved (get id queue) v f u))
]

send_same :
    (o : RemoteApprovalOptions) (now : ℕ) (id action : String) (ms : ℕ) (queue : Queue)
    → poll id (send o now id action ms queue) ≡ none
unfolding send poll
send_same o now id action ms queue =
    let e : PendingApproval = record {
      action = action;
      verdict = none;
      deadline = some (now + timeout_of o ms);
    } in
    let there : get id (set id e queue) ≡ some e =
      get-set id id e queue ∙ ground (arith, eq_refl id) in
    ap verdict_of there

timeout_rejects :
    (p : RemoteTimeoutPolicy) (now : ℕ) → p ≡ reject → (timeout_verdict p now).approved ≡ false
timeout_rejects p now r = ap (λ (q : RemoteTimeoutPolicy). (timeout_verdict q now).approved) r

apply-Unapproved :
    (o : RemoteApprovalOptions) (now : ℕ) (id : String) (op : Op) (queue : Queue)
    → o.on_timeout ≡ reject
    → NotApproved id op
    → Unapproved (poll id queue)
    → Unapproved (poll id (apply o now op queue))
unfolding apply resolve cancel fire
apply-Unapproved o now id (sends id' action ms) queue r ne u = elim (str_eq-cases id' id) [
  | inr (p, e, e') ↦ subst Unapproved (sym (send_other o now id id' action ms queue e)) u
  | inl (p, e, e') ↦
      subst (λ (j : String). Unapproved (poll id (send o now j action ms queue))) (sym p)
        (subst Unapproved (sym (send_same o now id action ms queue)) tt)
]
apply-Unapproved o now id (resolves id' true by note scope) queue r ne u =
    subst Unapproved (sym (settle_other id id' _ queue ne)) u
apply-Unapproved o now id (resolves id' false by note scope) queue r ne u =
    settle-Unapproved id id' _ queue refl u
apply-Unapproved o now id (cancels id') queue r ne u = settle-Unapproved id id' _ queue refl u
apply-Unapproved o now id (fires id') queue r ne u =
    if_cases (λ (q : Queue). Unapproved (poll id q)) (is_over now (get id' queue)) _ _
      (λ _. settle-Unapproved id id' _ queue (timeout_rejects o.on_timeout now r) u) (λ _. u)
apply-Unapproved o now id disposes queue r ne u = subst Unapproved (sym (dispose_same id queue)) u

empty-Unapproved : (id : String) → Unapproved (poll id [])
unfolding poll get
empty-Unapproved id = tt

runs-Unapproved :
    (o : RemoteApprovalOptions) (id : String) (ops : List (ℕ × Op)) (queue : Queue)
    → o.on_timeout ≡ reject
    → All (λ (x : ℕ × Op). NotApproved id x.1) ops
    → Unapproved (poll id queue)
    → Unapproved (poll id (apply_all o ops queue))
unfolding apply_all
runs-Unapproved o id [] queue r all u = u
runs-Unapproved o id ((now, op) ∷ ops) queue r all u =
    runs-Unapproved o id ops (apply o now op queue) r all.1
      (apply-Unapproved o now id op queue r all.0 u)

-- Fail-closed: with the policy "reject", and whatever requests, answers, cancellations, timers and
-- disposals come at whatever times, a request that nobody has approved has no verdict that
-- approves it.
pub approved_by_nobody :
    (o : RemoteApprovalOptions) (id : String) (ops : List (ℕ × Op)) (w : Verdict)
    → o.on_timeout ≡ reject
    → All (λ (x : ℕ × Op). NotApproved id x.1) ops
    → poll id (apply_all o ops []) ≡ some w
    → w.approved ≡ false
approved_by_nobody o id ops w r all h =
    subst Unapproved h (runs-Unapproved o id ops [] r all (empty-Unapproved id))
