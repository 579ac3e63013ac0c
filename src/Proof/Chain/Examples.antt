-- ===== src/Proof/Chain/Examples.antt =====
-- A trace of two steps, under a digest that is the payload itself, as a tree.
use agent_sdk.Proof.Chain.Check.{IsLinked, verify_chain-build_chain}
use agent_sdk.Proof.Chain.Evidence.{same_root-SameRun, IsCollisionFree, SameRun}
use agent_sdk.Proof.Chain.{
  Hashing, TraceStep, Trace, ProofChain, build_chain, verify_chain, root_payload, valid, present,
  completed, failed,
}
use agent_sdk.Common.{
  [], ◌∷◌, none, some, true, false, refl, ℕ, Bool, ◌≡◌, Option, String, ◌==◌, ap, arith, subst,
  str_eq, eq_iff, eq_refl, ◌&&◌, ◌↔◌, length,
}

data Digest : Type 0 where
  leaf : ℕ → Digest
  text : String → Digest
  pair : Digest → Digest → Digest

same : Digest → Digest → Bool
same (leaf m) (leaf n) = m == n
same (text s) (text t) = str_eq s t
same (pair a b) (pair c d) = same a c && same b d
same _ _ = false

same_sound : (a b : Digest) → same a b ≡ true → a ≡ b
unfolding same
same_sound (leaf m) (leaf n) e = ap leaf (ground arith)
same_sound (text s) (text t) e = ap text ((eq_iff s t).0 e)
same_sound (pair a b) (pair c d) e =
    cc (same_sound a c (ground arith), same_sound b d (ground arith))
same_sound (leaf m) (text t) e = absurd cc
same_sound (leaf m) (pair c d) e = absurd cc
same_sound (text s) (leaf n) e = absurd cc
same_sound (text s) (pair c d) e = absurd cc
same_sound (pair a b) (leaf n) e = absurd cc
same_sound (pair a b) (text t) e = absurd cc

same_refl : (a : Digest) → same a a ≡ true
unfolding same
same_refl (leaf m) = ground arith
same_refl (text s) = eq_refl s
same_refl (pair a b) = ground (arith, same_refl a, same_refl b)

abbrev of_last : Option Digest → Digest
of_last none = leaf 0
of_last (some d) = pair (leaf 1) d

abbrev tree : Hashing Digest ℕ ℕ
tree = record {
  of_step = λ p. pair (leaf p.index) (pair (text p.run_id) (pair p.prev_step_hash (leaf p.body)));
  of_root = λ p. pair (text p.agent_id) (
      pair (text p.agent_version) (
        pair p.config_hash
          (pair (of_last p.last_step_hash) (pair (text p.run_id) (leaf p.total_steps)))));
  of_config = λ c. leaf c;
  genesis = leaf 0;
  same = same;
  same_iff = λ a b. (same_sound a b, λ p. subst (λ (x : Digest). same a x ≡ true) p (same_refl a));
}

of_last-injective : (a b : Option Digest) → of_last a ≡ of_last b → a ≡ b
of_last-injective none none e = refl
of_last-injective (some a) (some b) e = cc
of_last-injective none (some b) e = absurd cc
of_last-injective (some a) none e = absurd cc

tree-IsCollisionFree : IsCollisionFree tree
tree-IsCollisionFree = record {
  steps_apart = λ p q e.
      (let index : p.index ≡ q.index = cc in
        let run : p.run_id ≡ q.run_id = cc in
        let prev : p.prev_step_hash ≡ q.prev_step_hash = cc in
        let body : p.body ≡ q.body = cc in
        λ j. record { index = index j; run_id = run j; prev_step_hash = prev j; body = body j });
  roots_apart = λ p q e.
      (let agent : p.agent_id ≡ q.agent_id = cc in
        let version : p.agent_version ≡ q.agent_version = cc in
        let config : p.config_hash ≡ q.config_hash = cc in
        let last : p.last_step_hash ≡ q.last_step_hash = of_last-injective _ _ cc in
        let run : p.run_id ≡ q.run_id = cc in
        let total : p.total_steps ≡ q.total_steps = cc in
        λ j. record {
          agent_id = agent j;
          agent_version = version j;
          config_hash = config j;
          last_step_hash = last j;
          run_id = run j;
          total_steps = total j;
        });
  configs_apart = λ p q e. cc;
}

abbrev first : TraceStep Digest ℕ
first = record {
  index = 0;
  run_id = "run";
  prev_step_hash = leaf 0;
  step_hash = pair (leaf 0) (pair (text "run") (pair (leaf 0) (leaf 7)));
  body = 7;
}

abbrev second : TraceStep Digest ℕ
second = record {
  index = 1;
  run_id = "run";
  prev_step_hash = first.step_hash;
  step_hash = pair (leaf 1) (pair (text "run") (pair first.step_hash (leaf 8)));
  body = 8;
}

abbrev two_steps : Trace Digest ℕ ℕ
two_steps = record {
  run_id = "run";
  agent_id = "agent";
  agent_version = "1";
  started_at = 1;
  completed_at = 2;
  status = completed;
  config = 5;
  config_hash = leaf 5;
  total_steps = 2;
  steps = first ∷ (second ∷ []);
  receipt_status = none;
}

abbrev chain_of_two : ProofChain Digest
chain_of_two = record {
  entries = (0, first.step_hash) ∷ ((1, second.step_hash) ∷ []);
  root_hash = tree.of_root (root_payload tree two_steps (some second.step_hash));
}

verify_chain-build_chain_example : (verify_chain tree two_steps chain_of_two ≡ valid none) ↔ (
    (length two_steps.steps ≡ two_steps.total_steps)
    × IsLinked tree two_steps.run_id 0 tree.genesis two_steps.steps
    × (two_steps.config_hash ≡ tree.of_config two_steps.config))
unfolding build_chain
verify_chain-build_chain_example = verify_chain-build_chain tree two_steps chain_of_two refl

-- The same trace, with its receipt, and another status.
abbrev with_receipt : Trace Digest ℕ ℕ
with_receipt = record two_steps { receipt_status = some present; status = failed }

same_root-SameRun_example : SameRun tree two_steps with_receipt
unfolding verify_chain same
same_root-SameRun_example =
    same_root-SameRun tree two_steps with_receipt chain_of_two chain_of_two none (some present)
      tree-IsCollisionFree refl refl refl
