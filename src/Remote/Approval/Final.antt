-- ===== src/Remote/Approval/Final.antt =====
-- What becomes of a request, over any operations of the channel.
use agent_sdk.Common.{
  ℕ, Bool, false, String, str_eq, str_eq-cases, eq_refl, List, [], ◌∷◌, Option, none, some, All,
  ◌≡◌, ◌∙◌, refl, ap, sym, subst, inl, inr, if_cases, arith,
}
use agent_sdk.Common.Assoc.{get, set, get-set}
use agent_sdk.Remote.Approval.{
  RemoteApprovalOptions, Scope, Verdict, PendingApproval, Queue, decided, settle_entry, settle,
  send, fire, is_over, cancel, resolve, verdict_of, poll, dispose,
}

pub data Op : Type 0 where
  sends : String → String → ℕ → Op
  resolves : String → Bool → String → String → Option Scope → Op
  cancels fires : String → Op
  disposes : Op

unfoldable pub apply : RemoteApprovalOptions → ℕ → Op → Queue → Queue
unfolding send resolve cancel fire dispose
apply o now (sends id action ms) queue = send o now id action ms queue
apply o now (resolves id approved by note scope) queue =
    (resolve now id approved by note scope queue).0
apply o now (cancels id) queue = cancel now id queue
apply o now (fires id) queue = fire o now id queue
apply o now disposes queue = dispose queue

unfoldable pub apply_all : RemoteApprovalOptions → List (ℕ × Op) → Queue → Queue
unfolding apply
apply_all o [] queue = queue
apply_all o ((now, op) ∷ ops) queue = apply_all o ops (apply o now op queue)

-- An operation that does not send the request `id` (again).
abbrev pub NotSent : String → Op → Type 0
NotSent id (sends id' action ms) = str_eq id' id ≡ false
NotSent id op = Unit

-- The verdict that a request has after settle, from the one it had.
abbrev pub first_of : Option PendingApproval → Verdict → Option Verdict
first_of none v = none
first_of (some e) v = elim e.verdict [ none ↦ some v | some w ↦ some w ]

entry_same :
    (id : String) (v : Verdict) (queue : Queue) (o : Option PendingApproval)
    → get id queue ≡ o
    → verdict_of (get id (settle_entry id v o queue)) ≡ first_of o v
unfolding settle_entry
entry_same id v queue none n = ap verdict_of n
entry_same id v queue (some e) n =
    let there : get id (set id (decided v e) queue) ≡ some (decided v e) =
      get-set id id (decided v e) queue ∙ ground (arith, eq_refl id) in
    ap verdict_of there ∙ ground arith

entry_other :
    (id id' : String) (v : Verdict) (queue : Queue) (o : Option PendingApproval)
    → str_eq id' id ≡ false
    → verdict_of (get id (settle_entry id' v o queue)) ≡ verdict_of (get id queue)
unfolding settle_entry
entry_other id id' v queue none ne = refl
entry_other id id' v queue (some e) ne =
    let there : get id (set id' (decided v e) queue) ≡ get id queue =
      get-set id' id (decided v e) queue ∙ ground (arith, ne) in
    ap verdict_of there

pub settle_same :
    (id : String) (v : Verdict) (queue : Queue)
    → poll id (settle id v queue) ≡ first_of (get id queue) v
unfolding settle poll
settle_same id v queue = entry_same id v queue (get id queue) refl

pub settle_other :
    (id id' : String) (v : Verdict) (queue : Queue)
    → str_eq id' id ≡ false
    → poll id (settle id' v queue) ≡ poll id queue
unfolding settle poll
settle_other id id' v queue ne = entry_other id id' v queue (get id' queue) ne

pub dispose_same : (id : String) (queue : Queue) → poll id (dispose queue) ≡ poll id queue
unfolding dispose poll get
dispose_same id [] = refl
dispose_same id ((j, e) ∷ queue) = ground (arith, dispose_same id queue)

first_stands :
    (o : Option PendingApproval) (v w : Verdict) → verdict_of o ≡ some w → first_of o v ≡ some w
first_stands none v w h = absurd cc
first_stands (some e) v w h = rw h refl

settle_stands :
    (id id' : String) (v w : Verdict) (queue : Queue)
    → poll id queue ≡ some w
    → poll id (settle id' v queue) ≡ some w
unfolding poll
settle_stands id id' v w queue h = elim (str_eq-cases id' id) [
  | inr (p, e, e') ↦ settle_other id id' v queue e ∙ h
  | inl (p, e, e') ↦
      subst (λ (j : String). poll id (settle j v queue) ≡ some w) (sym p)
        (settle_same id v queue ∙ first_stands (get id queue) v w h)
]

pub send_other :
    (o : RemoteApprovalOptions) (now : ℕ) (id id' action : String) (ms : ℕ) (queue : Queue)
    → str_eq id' id ≡ false
    → poll id (send o now id' action ms queue) ≡ poll id queue
unfolding send poll
send_other o now id id' action ms queue ne =
    let there : get id (send o now id' action ms queue) ≡ get id queue =
      get-set id' id _ queue ∙ ground (arith, ne) in
    ap verdict_of there

apply_stands :
    (o : RemoteApprovalOptions) (now : ℕ) (id : String) (w : Verdict) (op : Op) (queue : Queue)
    → NotSent id op
    → poll id queue ≡ some w
    → poll id (apply o now op queue) ≡ some w
unfolding apply resolve cancel fire
apply_stands o now id w (sends id' action ms) queue ne h =
    send_other o now id id' action ms queue ne ∙ h
apply_stands o now id w (resolves id' a by note scope) queue ne h = settle_stands id id' _ w queue h
apply_stands o now id w (cancels id') queue ne h = settle_stands id id' _ w queue h
apply_stands o now id w (fires id') queue ne h =
    if_cases (λ (q : Queue). poll id q ≡ some w) (is_over now (get id' queue)) _ _
      (λ _. settle_stands id id' _ w queue h) (λ _. h)
apply_stands o now id w disposes queue ne h = dispose_same id queue ∙ h

-- A verdict is final: once poll gives one, it gives the same after any operations at any times (answers,
-- cancellations, timers and the disposal of the channel), as long as no new request has its id.
pub verdict_stands :
    (o : RemoteApprovalOptions) (id : String) (w : Verdict) (ops : List (ℕ × Op)) (queue : Queue)
    → All (λ (x : ℕ × Op). NotSent id x.1) ops
    → poll id queue ≡ some w
    → poll id (apply_all o ops queue) ≡ some w
unfolding apply_all
verdict_stands o id w [] queue all h = h
verdict_stands o id w ((now, op) ∷ ops) queue all h =
    verdict_stands o id w ops (apply o now op queue) all.1
      (apply_stands o now id w op queue all.0 h)
