-- ===== src/Dag/Samples.antt =====
-- Nodes and settings that the tests of the scheduler share.
use agent_sdk.Common.{ℕ, String, List, [], none, some, false, length, ◌∷◌}
use agent_sdk.Dag.{
  DagNodeSpec, NodeRecord, Settings, Surroundings, Reply, VerifierVerdict, pending, done, deferred,
  returned,
}

abbrev pub plain : String → List String → DagNodeSpec ℕ
plain id deps = record {
  id = id;
  depends_on = deps;
  map_over = none;
  samples = none;
  timeout_ms = none;
  run_if = none;
  max_timeout_retries = some 1;
}

abbrev pub fresh : DagNodeSpec ℕ → NodeRecord ℕ
fresh spec = record {
  spec = spec;
  status = pending;
  reason = none;
  output = none;
  attempts = 0;
  retries_used = 0;
}

-- The chain a, b: b depends on a.
abbrev pub node_a : NodeRecord ℕ
node_a = fresh (plain "a" [])

abbrev pub node_b : NodeRecord ℕ
node_b = fresh (plain "b" ("a" ∷ []))

abbrev pub chain : List (NodeRecord ℕ)
chain = node_a ∷ node_b ∷ []

abbrev pub plain_settings : Settings
plain_settings = record { default_max_timeout_retries = none; best_of_n = none }

abbrev pub returns : ℕ → ℕ → Reply ℕ
returns n attempt = record { timer_won = false; answer = returned done (some n) none }

abbrev pub says_timeout : ℕ → Reply ℕ
says_timeout attempt = record {
  timer_won = false;
  answer = returned deferred none (some "timeout: upstream");
}

-- A verifier that accepts the number of the candidates.
abbrev pub counts : List ℕ → VerifierVerdict ℕ
counts c = record { accepted = some (length c); reason = "counted"; accepted_score = none }

-- Every value is the array of its one element; an array is read back as its length.
abbrev pub surrounded : (ℕ → Reply ℕ) → Surroundings ℕ
surrounded replies = record {
  inputs = ("a", some 7) ∷ [];
  replies = replies;
  probe = counts;
  verifier = counts;
  as_array = λ n. some (n ∷ []);
  of_array = λ c. length c;
}
