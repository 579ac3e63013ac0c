-- ===== src/Compute/Battery/Examples.antt =====
-- Three candidates and two lenses: the second candidate is killed by the hard lens.
use agent_sdk.Compute.Battery.Gate.{Decides, run_verifier_battery-Selected}
use agent_sdk.Compute.Battery.{
  cannot_hash, BatteryLens, BatteryOptions, decide, run_verifier_battery, is_blank, affirm, refute,
  hard, soft, deterministic, llm_judge,
}
use agent_sdk.Common.Text.{is_blank}
use agent_sdk.Trace.Canonical.{number, no_values, is_serializable}
use agent_sdk.Common.{[], ◌∷◌, refl, some, List, ℕ, ◌≡◌, if◌then◌else◌, false, ◌==◌}

abbrev rule : BatteryLens ℕ
rule = record {
  evaluate = λ c. if c == 2 then 0 else 1000;
  polarity = affirm;
  criticality = hard;
  engine = deterministic;
}

abbrev doubt : BatteryLens ℕ
doubt = record {
  evaluate = λ c. if c == 1 then 400 else 100;
  polarity = refute;
  criticality = soft;
  engine = llm_judge;
}

abbrev options : BatteryOptions
options = record { adr_eco = "ADR-1"; run_id = "run"; vote_threshold = 500 }

abbrev lenses : List (BatteryLens ℕ)
lenses = rule ∷ (doubt ∷ [])

abbrev three : List ℕ
three = 1 ∷ (2 ∷ (3 ∷ []))

third_wins :
    (decide 500 three lenses).accepted
    ≡ some (record { candidate_index = 2; killed = false; composite = 900000; scale = 1000000 })
unfolding decide
third_wins = refl

run_verifier_battery-Selected_example : Decides 3 (decide 500 three lenses)
unfolding cannot_hash is_serializable run_verifier_battery is_blank
run_verifier_battery-Selected_example =
    run_verifier_battery-Selected number no_values options three lenses (decide 500 three lenses)
      refl
