-- ===== src/Dag/Loop/Settling.antt =====
-- On a graph without cycles the loop is never stuck: the safety branch of `execute` defers no node.
use agent_sdk.Common.{
  ℕ, zero, suc, ◌<◌, ◌≡◌, ◌≢◌, refl, true, false, String, List, [], ◌∷◌, Option, none, some, arith,
  Bool-cases, inl, inr, str_eq, eq_iff, ap,
}
use agent_sdk.Dag.{
  NodeRecord, Status, pending, running, settled, done, deferred, failed, DagNodeSpec,
}
use agent_sdk.Dag.Records.{
  status_of, is_done_in, all_done, is_done, status_of-nil, all_done-nil, status_of-cons, has_id,
  specs,
}
use agent_sdk.Dag.Loop.{is_pending, first_blocking_dep, any_ready, is_ready, any_pending}
use agent_sdk.Dag.Loop.Slots.{count_running}
use agent_sdk.Dag.Loop.Progress.{NoneBlocked}

module _ {A : Type 0} where
  not_running :
      (l : List (NodeRecord A)) (d : String) → count_running l ≡ 0 → status_of d l ≢ some running
  not_running [] d z e = cc (status_of-nil A d)
  not_running (r ∷ l) d z e = ground (arith, status_of-cons r l d, not_running l d)

  has_id-status_of :
      (rs : List (NodeRecord A)) (d : String) → has_id d (specs rs) ≡ true → status_of d rs ≢ none
  has_id-status_of [] d h e = cc
  has_id-status_of (r ∷ rs) d h e = ground (arith, status_of-cons r rs d, has_id-status_of rs d)

  is_done_in_of :
      (rs : List (NodeRecord A)) (d : String) (s : Status)
      → status_of d rs ≡ some s
      → is_done_in rs d ≡ is_done s
  unfolding is_done_in
  is_done_in_of rs d s e = rw (e, is_done_in)

module _ {A : Type 0} (rank : String → ℕ) where
  -- Every dependency is the id of a node of `ns`, and has a lower rank than `k`.
  abbrev pub Below : List (DagNodeSpec A) → ℕ → List String → Type 0
  Below ns k [] = Unit
  Below ns k (d ∷ ds) = (has_id d ns ≡ true) × (rank d < k) × Below ns k ds

  -- The graph has no cycle, and no dependency is missing: `rank` falls from each node to its
  -- dependencies.
  abbrev pub Ranked : List (DagNodeSpec A) → List (DagNodeSpec A) → Type 0
  Ranked ns [] = Unit
  Ranked ns (s ∷ l) = Below ns (rank s.id) s.depends_on × Ranked ns l

  -- What is known of a record that is found by its id.
  record Found (rs : List (NodeRecord A)) (d : String) (r : NodeRecord A) : Type 0 where
    id_is : r.spec.id ≡ d
    below : Below (specs rs) (rank r.spec.id) r.spec.depends_on
    unblocked : is_pending r.status ≡ true → first_blocking_dep rs r.spec.depends_on ≡ none
    unready : is_ready rs r ≡ false

  found :
      (rs l : List (NodeRecord A)) (d : String) (s : Status)
      → Ranked (specs rs) (specs l)
      → NoneBlocked rs l
      → any_ready rs l ≡ false
      → status_of d l ≡ some s
      → (r : NodeRecord A) × (r.status ≡ s) × Found rs d r
  unfolding any_ready
  found rs [] d s k b f e = cc (status_of-nil A d)
  found rs (r ∷ l) d s k b f e = elim (Bool-cases (str_eq r.spec.id d)) [
    | inl h ↦ (
      r,
      ground (arith, status_of-cons r l d),
      record {
        id_is = (eq_iff r.spec.id d).0 h;
        below = k.0;
        unblocked = b.0;
        unready = ground arith;
      },
    )
    | inr h ↦ found rs l d s k.1 b.1 (ground arith) (ground (arith, status_of-cons r l d))
  ]

  -- A node that is neither ready nor blocked has a dependency that is pending.
  PendingDep : List (NodeRecord A) → ℕ → Type 0
  PendingDep rs k = (d : String) × (status_of d rs ≡ some pending) × (rank d < k)

  PendingDep-at :
      (rs : List (NodeRecord A)) (k : ℕ) (d : String) (ds : List String) (o : Option Status)
      → status_of d rs ≡ o
      → o ≢ none
      → o ≢ some running
      → rank d < k
      → first_blocking_dep rs (d ∷ ds) ≡ none
      → all_done rs (d ∷ ds) ≡ false
      → (first_blocking_dep rs ds ≡ none → all_done rs ds ≡ false → PendingDep rs k)
      → PendingDep rs k
  unfolding first_blocking_dep all_done PendingDep
  PendingDep-at rs k d ds none e p q b u a rest = absurd (p refl)
  PendingDep-at rs k d ds (some pending) e p q b u a rest = (d, e, b)
  PendingDep-at rs k d ds (some running) e p q b u a rest = absurd (q refl)
  PendingDep-at rs k d ds (some (settled done)) e p q b u a rest =
      rest (rw (e, first_blocking_dep) at u) (ground (arith, is_done_in_of rs d (settled done) e))
  PendingDep-at rs k d ds (some (settled deferred)) e p q b u a rest =
      let blocked = rw (e, first_blocking_dep) at u in cc
  PendingDep-at rs k d ds (some (settled failed)) e p q b u a rest =
      let blocked = rw (e, first_blocking_dep) at u in cc

  pending_dep :
      (rs : List (NodeRecord A)) (k : ℕ) (ds : List String)
      → count_running rs ≡ 0
      → Below (specs rs) k ds
      → first_blocking_dep rs ds ≡ none
      → all_done rs ds ≡ false
      → PendingDep rs k
  pending_dep rs k [] z b u a = cc (all_done-nil rs)
  pending_dep rs k (d ∷ ds) z b u a =
      PendingDep-at rs k d ds (status_of d rs) refl (has_id-status_of rs d b.0) (not_running rs d z)
        b.1 u a (pending_dep rs k ds z b.2)

  -- By induction on the rank, no id has a pending record.
  none_pending :
      (rs : List (NodeRecord A)) (n : ℕ) (d : String)
      → Ranked (specs rs) (specs rs)
      → NoneBlocked rs rs
      → any_ready rs rs ≡ false
      → count_running rs ≡ 0
      → rank d < n
      → status_of d rs ≢ some pending
  unfolding PendingDep
  none_pending rs zero d k b f z lt e = absurd (omega arith)
  none_pending rs (suc n) d k b f z lt e =
      let (r, p, at) = found rs rs d pending k b f e in
      let is_p : is_pending r.status ≡ true = rw p in
      let (c, pc, low) =
        pending_dep rs (rank r.spec.id) r.spec.depends_on z at.below (at.unblocked is_p)
          (unfold is_ready in ground (arith, at.unready)) in
      none_pending rs n c k b f z (omega (arith, low, ap rank at.id_is)) pc

  no_pending :
      (rs l : List (NodeRecord A))
      → Ranked (specs rs) (specs rs)
      → NoneBlocked rs rs
      → any_ready rs rs ≡ false
      → count_running rs ≡ 0
      → Ranked (specs rs) (specs l)
      → NoneBlocked rs l
      → any_ready rs l ≡ false
      → any_pending l ≡ false
  unfolding any_pending any_ready PendingDep
  no_pending rs [] k b f z kl bl fl = refl
  no_pending rs (r ∷ l) k b f z kl bl fl = elim (Bool-cases (is_pending r.status)) [
    | inl p ↦
        (let (c, pc, low) =
            pending_dep rs (rank r.spec.id) r.spec.depends_on z kl.0 (bl.0 p)
              (unfold is_ready in ground arith) in
          absurd (none_pending rs (suc (rank c)) c k b f z (omega arith) pc))
    | inr p ↦ rw p (no_pending rs l k b f z kl.1 bl.1 (ground arith))
  ]

  -- At the fixpoint of a graph without cycles, with nothing running and nothing ready, no node is
  -- pending.
  pub no_pending_at_fixpoint :
      (rs : List (NodeRecord A))
      → Ranked (specs rs) (specs rs)
      → NoneBlocked rs rs
      → any_ready rs rs ≡ false
      → count_running rs ≡ 0
      → any_pending rs ≡ false
  no_pending_at_fixpoint rs k b f z = no_pending rs rs k b f z k b f
