-- ===== src/Proof/ReceiptQueue/Examples.antt =====
-- A queue of four entries: a fresh one, one that is tried again, one that is not due, and one whose MAC does not
-- fit. The MAC is the sum of the numbers of an entry.
use agent_sdk.Common.{ℕ, ◌+◌, ◌==◌, ◌≡◌, Bool, String, List, [], ◌∷◌, none, refl, arith, true}
use agent_sdk.Proof.ReceiptQueue.{Mac, ReceiptQueueEntry, process, signed, default_backoff_ms}

same_as_itself : (m : ℕ) → (m == m) ≡ true
same_as_itself m = ground arith

abbrev sums : Mac ℕ
sums = record {
  compute = λ u. u.attempts + u.queued_at;
  same = λ m n. m == n;
  same_as_itself = same_as_itself;
}

abbrev entry : ℕ → ℕ → String → ReceiptQueueEntry ℕ
entry attempts queued_at root_hash =
    signed sums
      (record { attempts = attempts; queued_at = queued_at; root_hash = root_hash; run_id = "run" })

abbrev queue : List (ReceiptQueueEntry ℕ)
queue =
    entry 0 90000 "fresh"
    ∷ (entry 1 60000 "again"
        ∷ (entry 2 60000 "early" ∷ (record (entry 0 5 "forged") { hmac = 6 } ∷ [])))

-- The service gives a receipt for the first place only.
abbrev answers : ℕ → String → Bool
answers i root_hash = i == 0

two_left :
    (process sums default_backoff_ms 100000 answers none queue).left
    ≡ entry 2 60000 "again" ∷ (entry 2 60000 "early" ∷ [])
unfolding process
two_left = refl
