-- ===== src/Dag/Loop/Upstream.antt =====
-- A node runs, and is done, only after all its dependencies are done: what keeps this.
use agent_sdk.Common.{
  ◌≡◌, refl, sym, ap, subst, ◌⊎◌, inl, inr, true, String, List, [], ◌∷◌, arith, Pointwise,
}
use agent_sdk.Dag.{
  done, deferred, failed, DagNodeSpec, Status, pending, running, settled, NodeRecord,
}
use agent_sdk.Dag.Records.{is_done_in-cons, is_done, is_done_in, all_done}
use agent_sdk.Dag.Loop.Evolution.{is_active, Evolves}

is_done→eq : (s : Status) → is_done s ≡ true → s ≡ settled done
is_done→eq (settled done) h = refl
is_done→eq (settled deferred) h = cc
is_done→eq (settled failed) h = cc
is_done→eq pending h = cc
is_done→eq running h = cc

either {ℓ κ} : {A : Type ℓ} {B : Type κ} → A ⊎ B → (A → B) → B
either (inl a) f = f a
either (inr b) f = b

module _ {A : Type 0} where
  is_done_in_mono :
      (rs ss ts : List (NodeRecord A)) (id : String)
      → Pointwise (Evolves rs) ss ts
      → is_done_in ss id ≡ true
      → is_done_in ts id ≡ true
  is_done_in_mono rs [] [] id q h = h
  is_done_in_mono rs (s ∷ ss) (t ∷ ts) id q h = ground (
    arith,
    is_done_in-cons s ss id,
    is_done_in-cons t ts id,
    ap (λ (x : DagNodeSpec A). x.id) q.0.same_spec,
    is_done→eq s.status,
    q.0.done_kept,
    is_done_in_mono rs ss ts id q.1,
  )
  is_done_in_mono rs [] (t ∷ ts) id q h = absurd q
  is_done_in_mono rs (s ∷ ss) [] id q h = absurd q

  all_done_mono :
      (rs ss ts : List (NodeRecord A)) (ds : List String)
      → Pointwise (Evolves rs) ss ts
      → all_done ss ds ≡ true
      → all_done ts ds ≡ true
  unfolding all_done
  all_done_mono rs ss ts [] q h = refl
  all_done_mono rs ss ts (d ∷ ds) q h =
      ground (arith, is_done_in_mono rs ss ts d q, all_done_mono rs ss ts ds q)

  -- Every record of `l` that is active has all its dependencies done in `rs`.
  abbrev pub UpstreamDone : List (NodeRecord A) → List (NodeRecord A) → Type 0
  UpstreamDone rs [] = Unit
  UpstreamDone rs (r ∷ l) =
      (is_active r.status ≡ true → all_done rs r.spec.depends_on ≡ true) × UpstreamDone rs l

  -- If nothing that is done in `rs` is lost in `rs'`, the property goes over to what `rs` became.
  UpstreamDone-step :
      (rs rs' ss ts : List (NodeRecord A))
      → ((ds : List String) → all_done rs ds ≡ true → all_done rs' ds ≡ true)
      → Pointwise (Evolves rs) ss ts
      → UpstreamDone rs ss
      → UpstreamDone rs' ts
  UpstreamDone-step rs rs' [] [] keep q u = tt
  UpstreamDone-step rs rs' (s ∷ ss) (t ∷ ts) keep q u = (
    λ h.
        subst (λ (x : DagNodeSpec A). all_done rs' x.depends_on ≡ true) (sym q.0.same_spec)
          (keep s.spec.depends_on (either (q.0.active_kept h) u.0)),
    UpstreamDone-step rs rs' ss ts keep q.1 u.1,
  )
  UpstreamDone-step rs rs' [] (t ∷ ts) keep q u = absurd q
  UpstreamDone-step rs rs' (s ∷ ss) [] keep q u = absurd q

  pub UpstreamDone-Evolves :
      (rs ts : List (NodeRecord A))
      → Pointwise (Evolves rs) rs ts
      → UpstreamDone rs rs
      → UpstreamDone ts ts
  UpstreamDone-Evolves rs ts q u =
      UpstreamDone-step rs ts rs ts (λ ds. all_done_mono rs rs ts ds q) q u
