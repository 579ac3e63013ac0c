-- ===== src/Proof/ReceiptQueue/Batch.antt =====
-- What one batch does to the queue.
use agent_sdk.Common.{
  ℕ, suc, ◌+◌, ◌≡◌, Bool, true, String, List, [], ◌∷◌, length, All, if◌then◌else◌,
}
use agent_sdk.Proof.ReceiptQueue.{Mac, ReceiptQueueEntry, Report, is_authentic, is_due}

module _ {M : Type 0} (mac : Mac M) where
  -- The root hashes of the entries that are authentic and due, in order.
  pub due_roots : List ℕ → ℕ → List (ReceiptQueueEntry M) → List String
  due_roots backoff_ms now [] = []
  due_roots backoff_ms now (e ∷ es) =
      let rest = due_roots backoff_ms now es in
      if is_authentic mac e
      then (if is_due backoff_ms now e.unsigned then e.unsigned.root_hash ∷ rest else rest)
      else rest

  pub tampered : List (ReceiptQueueEntry M) → ℕ
  tampered [] = 0
  tampered (e ∷ es) = let rest = tampered es in if is_authentic mac e then rest else suc rest

  module _ (backoff_ms : List ℕ) (now : ℕ) (request : ℕ → String → Bool) where
    pub record Handled (queue : List (ReceiptQueueEntry M)) (r : Report M) : Type 0 where
      pub requested : r.requested ≡ due_roots backoff_ms now queue
      pub rejected : r.rejected ≡ tampered queue
      pub nothing_lost : length r.left + r.processed + r.rejected ≡ length queue
      pub each_counted : r.processed + r.failed ≡ length r.requested
      pub all_authentic : All (λ (e : ReceiptQueueEntry M). is_authentic mac e ≡ true) r.left
