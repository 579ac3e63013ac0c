-- ===== src/Proof/Chain.antt =====
-- src/proof/chain.ts: the hash chain over the steps of a trace, and its check. The digest of a
-- canonical form (canonicalize, then SHA-256) is a parameter.
pub mod Check
pub mod Evidence
mod Examples
use agent_sdk.Common.{
  ℕ, suc, String, Bool, true, false, List, [], ◌∷◌, Option, none, some, length, ◌==◌, str_eq,
  if◌then◌else◌, ◌≡◌, ◌↔◌, ◌⊎◌, inl, inr,
}

pub data ReceiptStatus : Type 0 where
  present waiting lost : ReceiptStatus

-- `D` is the type of digests. `body` stands for the fields of a step that the chain only hashes.
pub record TraceStep (D Body : Type 0) : Type 0 where
  pub index : ℕ
  pub run_id : String
  pub prev_step_hash : D
  pub step_hash : D
  pub body : Body

-- What is hashed of a step: all but `stepHash`, with the run's id.
pub record StepPayload (D Body : Type 0) : Type 0 where
  pub index : ℕ
  pub run_id : String
  pub prev_step_hash : D
  pub body : Body

-- `lastStepHash` is undefined for a trace with no steps.
pub record RootPayload (D : Type 0) : Type 0 where
  pub agent_id : String
  pub agent_version : String
  pub config_hash : D
  pub last_step_hash : Option D
  pub run_id : String
  pub total_steps : ℕ

pub data TraceStatus : Type 0 where
  completed failed skipped : TraceStatus

-- Without the signature, and the receipt but for its status.
pub record Trace (D Body Config : Type 0) : Type 0 where
  pub run_id : String
  pub agent_id : String
  pub agent_version : String
  pub started_at : ℕ
  pub completed_at : ℕ
  pub status : TraceStatus
  pub config : Config
  pub config_hash : D
  pub total_steps : ℕ
  pub steps : List (TraceStep D Body)
  pub receipt_status : Option ReceiptStatus

pub record ProofChain (D : Type 0) : Type 0 where
  pub entries : List (ℕ × D)
  pub root_hash : D

-- The digests of the three payloads, `GENESIS_PREV_HASH`, and `===` on digests.
pub record Hashing (D Body Config : Type 0) : Type 0 where
  pub of_step : StepPayload D Body → D
  pub of_root : RootPayload D → D
  pub of_config : Config → D
  pub genesis : D
  pub same : D → D → Bool
  pub same_iff : (a b : D) → (same a b ≡ true) ↔ (a ≡ b)

pub data Flaw : Type 0 where
  total_steps_mismatch monotone_violation run_id_mismatch : Flaw
  step_hash_mismatch prev_hash_mismatch root_hash_mismatch config_hash_mismatch : Flaw

-- `tamperedAt` is none for -1.
pub data VerifyChainResult : Type 0 where
  valid : Option ReceiptStatus → VerifyChainResult
  invalid : Option ℕ → Flaw → Option ReceiptStatus → VerifyChainResult

module _ {D Body Config : Type 0} (h : Hashing D Body Config) where
  abbrev pub payload : TraceStep D Body → String → StepPayload D Body
  payload s run_id = record {
    index = s.index;
    run_id = run_id;
    prev_step_hash = s.prev_step_hash;
    body = s.body;
  }

  abbrev pub compute_step_hash : TraceStep D Body → String → D
  compute_step_hash s run_id = h.of_step (payload s run_id)

  pub build_entries : String → List (TraceStep D Body) → List (ℕ × D)
  build_entries run_id [] = []
  build_entries run_id (s ∷ ss) = (s.index, compute_step_hash s run_id) ∷ build_entries run_id ss

  -- `entries[entries.length - 1].stepHash`
  pub last_hash : List (ℕ × D) → Option D
  last_hash [] = none
  last_hash (e ∷ []) = some e.1
  last_hash (e ∷ (e' ∷ es)) = last_hash (e' ∷ es)

  abbrev pub root_payload : Trace D Body Config → Option D → RootPayload D
  root_payload t last = record {
    agent_id = t.agent_id;
    agent_version = t.agent_version;
    config_hash = t.config_hash;
    last_step_hash = last;
    run_id = t.run_id;
    total_steps = t.total_steps;
  }

  -- It throws if the trace has no steps.
  unfoldable pub build_chain : Trace D Body Config → Option (ProofChain D)
  unfolding build_entries last_hash
  build_chain t =
      let entries = build_entries t.run_id t.steps in
      if length t.steps == 0
      then none
      else some
          (record { entries = entries; root_hash = h.of_root (root_payload t (last_hash entries)) })

  -- `i === 0 ? GENESIS_PREV_HASH : computedHashes[i - 1]`, of the last hash that was computed.
  abbrev pub expected_prev : Option D → D
  expected_prev none = h.genesis
  expected_prev (some d) = d

  -- The loop over the steps: where it stops and why, or the last hash that it has computed.
  pub verify_steps : String → ℕ → Option D → List (TraceStep D Body) → (ℕ × Flaw) ⊎ Option D
  verify_steps run_id i last [] = inr last
  verify_steps run_id i last (s ∷ ss) =
      let computed = compute_step_hash s run_id in
      let rest = verify_steps run_id (suc i) (some computed) ss in
      if s.index == i
      then (if str_eq s.run_id run_id
          then (if h.same computed s.step_hash
              then (if h.same s.prev_step_hash (expected_prev last)
                  then rest
                  else inl (i, prev_hash_mismatch))
              else inl (i, step_hash_mismatch))
          else inl (i, run_id_mismatch))
      else inl (i, monotone_violation)

  -- The checks of the root and of the configuration, once the steps have passed.
  pub verify_root : Trace D Body Config → ProofChain D → Option D → VerifyChainResult
  verify_root t c last =
      if h.same c.root_hash (h.of_root (root_payload t last))
      then (if h.same t.config_hash (h.of_config t.config)
          then valid t.receipt_status
          else invalid none config_hash_mismatch t.receipt_status)
      else invalid none root_hash_mismatch t.receipt_status

  unfoldable pub verify_chain : Trace D Body Config → ProofChain D → VerifyChainResult
  unfolding verify_steps verify_root
  verify_chain t c =
      if length t.steps == t.total_steps
      then elim (verify_steps t.run_id 0 none t.steps) [
        | inl (i, flaw) ↦ invalid (some i) flaw t.receipt_status
        | inr last ↦ verify_root t c last
      ]
      else invalid none total_steps_mismatch t.receipt_status
