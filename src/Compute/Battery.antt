-- ===== src/Compute/Battery.antt =====
-- src/compute/battery/battery.ts: governed verifiers over given candidates. The lenses' verifiers are
-- parameters. Scores are in thousandths, and the composite score is an exact fraction, where the
-- source rounds.
pub mod Selection
pub mod Completeness
pub mod Gate
pub mod Single
mod Examples
use agent_sdk.Common.{
  ℕ, zero, suc, ◌+◌, ◌-◌, ◌*◌, Bool, true, false, not, ◌&&◌, ◌||◌, String, List, [], ◌∷◌, Option,
  none, some, leb, ltb, ◌==◌, if◌then◌else◌, ◌⊎◌, inl, inr, length,
}
use agent_sdk.Common.Text.{is_blank}
use agent_sdk.Trace.Canonical.{Payload, is_serializable}

pub data Polarity : Type 0 where
  affirm refute : Polarity

pub data Criticality : Type 0 where
  hard soft advisory : Criticality

-- `LensEngine`; `deterministic` is any but "llm-judge".
pub data LensEngine : Type 0 where
  deterministic llm_judge : LensEngine

pub record BatteryLens (T : Type 0) : Type 0 where
  pub evaluate : T → ℕ
  pub polarity : Polarity
  pub criticality : Criticality
  pub engine : LensEngine

-- BatteryGovernanceError; `bad_score`, the TypeError of assertVerifierResult; and `not_serializable`, the
-- NonSerializablePayloadError of canonicalize.
pub data BatteryError : Type 0 where
  no_adr_eco no_run_id no_candidates no_lenses : BatteryError
  advisory_only no_anchor bad_threshold bad_score not_serializable : BatteryError

-- The counters of the loop over the lenses.
pub record Tally : Type 0 where
  pub affirm_sum : ℕ
  pub affirm_count : ℕ
  pub refute_sum : ℕ
  pub refute_gating : ℕ
  pub refute_fired : ℕ
  pub hard_killed : Bool

abbrev pub no_tally : Tally
no_tally = record {
  affirm_sum = 0;
  affirm_count = 0;
  refute_sum = 0;
  refute_gating = 0;
  refute_fired = 0;
  hard_killed = false;
}

-- The composite score is `composite` over `scale`.
pub record CandidateVerdict : Type 0 where
  pub candidate_index : ℕ
  pub killed : Bool
  pub composite : ℕ
  pub scale : ℕ

abbrev pub is_hard : Criticality → Bool
is_hard hard = true
is_hard _ = false

abbrev pub is_gating : Criticality → Bool
is_gating advisory = false
is_gating _ = true

abbrev pub is_anchor : LensEngine → Bool
is_anchor deterministic = true
is_anchor llm_judge = false

abbrev pub fires : ℕ → Polarity → ℕ → Bool
fires threshold affirm score = ltb score threshold
fires threshold refute score = leb threshold score

-- One turn of the loop over the lenses, for a lens that gates.
abbrev pub count_score : ℕ → Polarity → Bool → ℕ → Tally → Tally
count_score threshold affirm is_hard_lens score t = record t {
  affirm_sum = t.affirm_sum + score;
  affirm_count = suc t.affirm_count;
  hard_killed = t.hard_killed || (is_hard_lens && fires threshold affirm score);
}
count_score threshold refute is_hard_lens score t = record t {
  refute_sum = t.refute_sum + score;
  refute_gating = suc t.refute_gating;
  refute_fired = if fires threshold refute score then suc t.refute_fired else t.refute_fired;
  hard_killed = t.hard_killed || (is_hard_lens && fires threshold refute score);
}

-- `hardKilled || quorumKilled`
abbrev pub is_killed : Tally → Bool
is_killed t = t.hard_killed || (leb 2 t.refute_gating && ltb t.refute_gating (t.refute_fired * 2))

-- `affirmMean * (1 - refuteMean)`: the mean of no affirmer is 1, that of no refuter 0.
abbrev pub composite_of : Tally → ℕ
composite_of t =
    (if t.affirm_count == 0 then 1000 else t.affirm_sum)
    * (if t.refute_gating == 0 then 1000 else 1000 * t.refute_gating - t.refute_sum)

abbrev pub scale_of : Tally → ℕ
scale_of t =
    (if t.affirm_count == 0 then 1000 else 1000 * t.affirm_count)
    * (if t.refute_gating == 0 then 1000 else 1000 * t.refute_gating)

-- `v.compositeScore > best`
abbrev pub exceeds : CandidateVerdict → CandidateVerdict → Bool
exceeds v best = ltb (best.composite * v.scale) (v.composite * best.scale)

-- The survivor with the greatest score, and of those the first.
pub select : Option CandidateVerdict → List CandidateVerdict → Option CandidateVerdict
select best [] = best
select none (v ∷ vs) = if v.killed then select none vs else select (some v) vs
select (some best) (v ∷ vs) =
    if v.killed
    then select (some best) vs
    else if exceeds v best
    then select (some v) vs
    else select (some best) vs

abbrev pub index_is : ℕ → Option CandidateVerdict → Bool
index_is i none = false
index_is i (some best) = i == best.candidate_index

-- Every candidate but the accepted one.
pub keep_rejected : Option CandidateVerdict → List CandidateVerdict → List CandidateVerdict
keep_rejected best [] = []
keep_rejected best (v ∷ vs) =
    let rest = keep_rejected best vs in if index_is v.candidate_index best then rest else v ∷ rest

pub record BatteryDecision : Type 0 where
  pub accepted : Option CandidateVerdict
  pub verdicts : List CandidateVerdict
  pub rejected : List CandidateVerdict

pub record BatteryOptions : Type 0 where
  pub adr_eco : String
  pub run_id : String
  pub vote_threshold : ℕ

-- The guards' error, or that of a bad score or of a value that has no hash, or the decision.
abbrev pub finish :
    Option BatteryError → Bool → Bool → BatteryDecision → BatteryError ⊎ BatteryDecision
finish (some e) bad unhashed d = inl e
finish none bad unhashed d =
    if bad then inl bad_score else if unhashed then inl not_serializable else inr d

module _ {T : Type 0} where
  pub tally_lens : ℕ → T → BatteryLens T → Tally → Tally
  tally_lens threshold c lens t =
      if is_gating lens.criticality
      then count_score threshold lens.polarity (is_hard lens.criticality) (lens.evaluate c) t
      else t

  pub tally_lenses : ℕ → T → List (BatteryLens T) → Tally → Tally
  unfolding tally_lens
  tally_lenses threshold c [] t = t
  tally_lenses threshold c (lens ∷ lenses) t =
      tally_lenses threshold c lenses (tally_lens threshold c lens t)

  pub judge_candidate : ℕ → List (BatteryLens T) → ℕ → T → CandidateVerdict
  unfolding tally_lenses
  judge_candidate threshold lenses i c =
      let t = tally_lenses threshold c lenses no_tally in
      record {
        candidate_index = i;
        killed = is_killed t;
        composite = composite_of t;
        scale = scale_of t;
      }

  pub judge_all : ℕ → List (BatteryLens T) → ℕ → List T → List CandidateVerdict
  unfolding judge_candidate
  judge_all threshold lenses i [] = []
  judge_all threshold lenses i (c ∷ cs) =
      judge_candidate threshold lenses i c ∷ judge_all threshold lenses (suc i) cs

  pub any_lens : (BatteryLens T → Bool) → List (BatteryLens T) → Bool
  any_lens test [] = false
  any_lens test (lens ∷ lenses) = test lens || any_lens test lenses

  pub any_bad_score : List (BatteryLens T) → List T → Bool
  unfolding any_lens
  any_bad_score lenses [] = false
  any_bad_score lenses (c ∷ cs) =
      any_lens (λ lens. ltb 1000 (lens.evaluate c)) lenses || any_bad_score lenses cs

  -- The guards, in the order of the source.
  pub governance_error : BatteryOptions → List T → List (BatteryLens T) → Option BatteryError
  unfolding any_lens
  governance_error opts candidates lenses =
      if is_blank opts.adr_eco
      then some no_adr_eco
      else if is_blank opts.run_id
      then some no_run_id
      else if length candidates == 0
      then some no_candidates
      else if length lenses == 0
      then some no_lenses
      else if not (any_lens (λ lens. is_gating lens.criticality) lenses)
      then some advisory_only
      else if not (any_lens (λ lens. is_anchor lens.engine) lenses)
      then some no_anchor
      else if ltb 1000 opts.vote_threshold
      then some bad_threshold
      else none

  pub decide : ℕ → List T → List (BatteryLens T) → BatteryDecision
  unfolding judge_all select keep_rejected
  decide threshold candidates lenses =
      let verdicts = judge_all threshold lenses 0 candidates in
      let best = select none verdicts in
      record { accepted = best; verdicts = verdicts; rejected = keep_rejected best verdicts }

  pub all_serializable : (T → Payload) → List T → Bool
  unfolding is_serializable
  all_serializable payload [] = true
  all_serializable payload (c ∷ cs) = is_serializable (payload c) && all_serializable payload cs

  -- The candidates and the input are put into canonical form, for their hashes.
  unfoldable pub cannot_hash : (T → Payload) → Payload → List T → Bool
  unfolding all_serializable is_serializable
  cannot_hash payload input candidates =
      not (all_serializable payload candidates && is_serializable input)

  -- `payload` is what canonicalize sees of a candidate.
  unfoldable pub run_verifier_battery :
      (T → Payload)
      → Payload
      → BatteryOptions
      → List T
      → List (BatteryLens T)
      → BatteryError ⊎ BatteryDecision
  unfolding governance_error any_bad_score decide cannot_hash
  run_verifier_battery payload input opts candidates lenses =
      finish (governance_error opts candidates lenses) (any_bad_score lenses candidates)
        (cannot_hash payload input candidates) (decide opts.vote_threshold candidates lenses)

-- `decision.acceptedIndex !== null`, the verdict of batteryActionGate; an error is thrown on.
abbrev pub allowed_by : BatteryError ⊎ BatteryDecision → BatteryError ⊎ Bool
allowed_by (inl e) = inl e
allowed_by (inr d) = inr (elim d.accepted [ none ↦ false | some v ↦ true ])
