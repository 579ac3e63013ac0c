-- ===== src/Proof/ReceiptQueue.antt =====
-- src/proof/receipt-queue.ts: the queue of root hashes that wait for a receipt. The keyed MAC, the
-- comparison of two MACs and the timestamping service are parameters.
pub mod Batch
mod Examples
use agent_sdk.Common.{
  ℕ, zero, suc, ◌+◌, ◌-◌, min, Bool, true, false, not, String, List, [], ◌∷◌, ◌++◌, Option, none,
  some, length, ◌==◌, leb, if◌then◌else◌, ◌≡◌,
}

-- What the MAC of an entry covers: all of it but the MAC.
pub record Unsigned : Type 0 where
  pub attempts : ℕ
  pub queued_at : ℕ
  pub root_hash : String
  pub run_id : String

pub record ReceiptQueueEntry (M : Type 0) : Type 0 where
  pub unsigned : Unsigned
  pub hmac : M

-- hmacSha256 of the canonical form with the key, and the comparison of its results.
pub record Mac (M : Type 0) : Type 0 where
  pub compute : Unsigned → M
  pub same : M → M → Bool
  pub same_as_itself : (m : M) → same m m ≡ true

-- DEFAULT_BACKOFF_MS
abbrev pub default_backoff_ms : List ℕ
default_backoff_ms = 30000 ∷ (300000 ∷ (3600000 ∷ (21600000 ∷ (86400000 ∷ []))))

abbrev pub at_index : List ℕ → ℕ → Option ℕ
at_index [] i = none
at_index (b ∷ bs) zero = some b
at_index (b ∷ bs) (suc i) = at_index bs i

-- `!(now < entry.queuedAt + backoffMs[backoffIdx])`; it holds of an index that is out of range.
abbrev pub is_past : ℕ → ℕ → Option ℕ → Bool
is_past now queued_at none = true
is_past now queued_at (some ms) = leb (queued_at + ms) now

abbrev pub is_due : List ℕ → ℕ → Unsigned → Bool
is_due backoff_ms now u =
    if u.attempts == 0
    then true
    else is_past now u.queued_at (elim backoff_ms [
      | [] ↦ none
      | b ∷ bs ↦ at_index (b ∷ bs) (min (u.attempts - 1) (length bs))
    ])

-- What `process` leaves in the queue, returns, and has asked receipts for, in order.
pub record Report (M : Type 0) : Type 0 where
  pub left : List (ReceiptQueueEntry M)
  pub processed : ℕ
  pub failed : ℕ
  pub rejected : ℕ
  pub requested : List String

module _ {M : Type 0} (mac : Mac M) where
  abbrev pub signed : Unsigned → ReceiptQueueEntry M
  signed u = record { unsigned = u; hmac = mac.compute u }

  unfoldable pub enqueue :
      String → String → ℕ → List (ReceiptQueueEntry M) → List (ReceiptQueueEntry M)
  enqueue run_id root_hash queued_at queue =
      queue
      ++ (signed
            (record { attempts = 0; queued_at = queued_at; root_hash = root_hash; run_id = run_id })
          ∷ [])

  abbrev pub is_authentic : ReceiptQueueEntry M → Bool
  is_authentic e = mac.same e.hmac (mac.compute e.unsigned)

  abbrev pub tried_again : ReceiptQueueEntry M → ReceiptQueueEntry M
  tried_again e = signed (record e.unsigned { attempts = e.unsigned.attempts + 1 })

  module _ (backoff_ms : List ℕ) (now : ℕ) (request : ℕ → String → Bool) where
    abbrev pub with_kept : ReceiptQueueEntry M → Report M → Report M
    with_kept e r = record r { left = e ∷ r.left }

    -- An entry that is due: `asked` says whether `adapter.request` gave a receipt.
    abbrev pub with_asked : ReceiptQueueEntry M → Bool → Report M → Report M
    with_asked e true r = record r {
      processed = suc r.processed;
      requested = e.unsigned.root_hash ∷ r.requested;
    }
    with_asked e false r = record r {
      left = tried_again e ∷ r.left;
      failed = suc r.failed;
      requested = e.unsigned.root_hash ∷ r.requested;
    }

    -- The loop from place `i` on, with the number of entries that the batch has room for.
    pub process_from : ℕ → ℕ → List (ReceiptQueueEntry M) → Report M
    process_from i room [] = record {
      left = [];
      processed = 0;
      failed = 0;
      rejected = 0;
      requested = [];
    }
    process_from i zero (e ∷ es) = record {
      left = e ∷ es;
      processed = 0;
      failed = 0;
      rejected = 0;
      requested = [];
    }
    process_from i (suc room) (e ∷ es) =
        let counted = process_from (suc i) room es in
        let skipped = process_from (suc i) (suc room) es in
        if is_authentic e
        then (if is_due backoff_ms now e.unsigned
            then with_asked e (request i e.unsigned.root_hash) counted
            else with_kept e skipped)
        else record counted { rejected = suc counted.rejected }

    -- `batchSize ?? this._entries.length`
    unfoldable pub process : Option ℕ → List (ReceiptQueueEntry M) → Report M
    unfolding process_from
    process none queue = process_from 0 (length queue) queue
    process (some batch_size) queue = process_from 0 batch_size queue
