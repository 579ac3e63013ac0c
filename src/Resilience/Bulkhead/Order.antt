-- ===== src/Resilience/Bulkhead/Order.antt =====
-- The calls of one bulkhead, however they arrive and finish: bounds, and first come, first served.
use mathlib.Core.List.{append-nil, append_assoc}
use agent_sdk.Common.{
  ◌≤◌, arith, ◌<◌, ◌++◌, some, length, ◌∷◌, ◌≢◌, ◌≡◌, none, refl, ◌⊎◌, if_cases, inl, inr, ltb, leb,
  length-append, ◌-◌, subst, sym, ◌+◌, ap,
}
use agent_sdk.Resilience.Bulkhead.{
  Bulkhead, BulkheadOptions, Acquired, granted, queued, full, acquire, release, List, [], ℕ, Option,
}

-- The bulkhead, the callers it has let go on, and those it has not rejected, each in their order.
pub record World : Type 0 where
  pub bulkhead : Bulkhead
  pub started : List ℕ
  pub accepted : List ℕ

abbrev pub start : World
start = record { bulkhead = record { active = 0; queue = [] }; started = []; accepted = [] }

abbrev pub arrive : ℕ → World → Bulkhead × Acquired → World
arrive caller w (b, granted) = record {
  bulkhead = b;
  started = w.started ++ (caller ∷ []);
  accepted = w.accepted ++ (caller ∷ []);
}
arrive caller w (b, queued) = record w { bulkhead = b; accepted = w.accepted ++ (caller ∷ []) }
arrive caller w (b, full depth) = record w { bulkhead = b }

abbrev pub finish : World → Bulkhead × Option ℕ → World
finish w (b, none) = record w { bulkhead = b }
finish w (b, some caller) = record w { bulkhead = b; started = w.started ++ (caller ∷ []) }

pub data Step (o : BulkheadOptions) (w : World) : World → Type 0 where
  arrives : (caller : ℕ) → Step o w (arrive caller w (acquire o caller w.bulkhead))
  finishes : 0 < w.bulkhead.active → Step o w (finish w (release w.bulkhead))

pub data Reach (o : BulkheadOptions) (w : World) : World → Type 0 where
  here : Reach o w w
  next : {u v : World} → Reach o w u → Step o u v → Reach o w v

-- Both bounds hold; a caller waits only while all slots are taken; and the callers start in the
-- order in which they were accepted, those that wait last.
pub record IsFair (o : BulkheadOptions) (w : World) : Type 0 where
  pub slots : w.bulkhead.active ≤ o.max_concurrent
  pub waiting : length w.bulkhead.queue ≤ o.max_queued
  pub no_idle_slot : w.bulkhead.queue ≢ [] → w.bulkhead.active ≡ o.max_concurrent
  pub in_order : w.started ++ w.bulkhead.queue ≡ w.accepted

start-IsFair : (o : BulkheadOptions) → IsFair o start
start-IsFair o = record {
  slots = omega arith;
  waiting = omega arith;
  no_idle_slot = λ h. absurd (h refl);
  in_order = refl;
}

nil-cases : (xs : List ℕ) → (xs ≡ []) ⊎ (xs ≢ [])
nil-cases [] = inl refl
nil-cases (x ∷ xs) = inr (λ e. cc)

queue-cases : (xs : List ℕ) → (xs ≡ []) ⊎ ((y : ℕ) × (ys : List ℕ) × (xs ≡ y ∷ ys))
queue-cases [] = inl refl
queue-cases (x ∷ xs) = inr (x, xs, refl)

arrive-IsFair :
    (o : BulkheadOptions) (caller : ℕ) (w : World)
    → IsFair o w
    → IsFair o (arrive caller w (acquire o caller w.bulkhead))
unfolding acquire
arrive-IsFair o caller w v =
    let b = w.bulkhead in
    let P : Bulkhead × Acquired → Type 0 = λ p. IsFair o (arrive caller w p) in
    if_cases P (ltb b.active o.max_concurrent) _ _
      (λ free.
        let empty : b.queue ≡ [] = elim (nil-cases b.queue) [
          | inl e ↦ e
          | inr ne ↦ absurd (ground (arith, v.no_idle_slot ne))
        ] in
        record {
          slots = ground arith;
          waiting = v.waiting;
          no_idle_slot = λ ne. absurd (ne empty);
          in_order =
              cc (v.in_order, empty, append-nil (w.started ++ (caller ∷ [])), append-nil w.started);
        })
      (λ taken.
        if_cases P (leb o.max_queued (length b.queue)) _ _
          (λ _. record {
            slots = v.slots;
            waiting = v.waiting;
            no_idle_slot = v.no_idle_slot;
            in_order = v.in_order;
          })
          (λ room. record {
            slots = v.slots;
            waiting = ground (arith, length-append b.queue (caller ∷ []));
            no_idle_slot = λ _. ground (arith, v.slots);
            in_order = cc (v.in_order, append_assoc w.started b.queue (caller ∷ []));
          }))

finish-IsFair :
    (o : BulkheadOptions) (w : World)
    → IsFair o w
    → 0 < w.bulkhead.active
    → IsFair o (finish w (release w.bulkhead))
unfolding release
finish-IsFair o w v h =
    let b = w.bulkhead in
    let P : Bulkhead × Option ℕ → Type 0 = λ p. IsFair o (finish w p) in
    elim (queue-cases b.queue) [
      | inl e ↦
          (let r : release b ≡ (record { active = b.active - 1; queue = [] }, none) =
              rw (e, release) in
            subst P (sym r) (record {
              slots = omega (arith, v.slots);
              waiting = omega arith;
              no_idle_slot = λ ne. absurd (ne refl);
              in_order = cc (v.in_order, e);
            }))
      | inr (caller, rest, e) ↦
          (let r : release b ≡ (record { active = b.active - 1 + 1; queue = rest }, some caller) =
              rw (e, release) in
            let busy : b.active ≡ o.max_concurrent = v.no_idle_slot (λ z. cc) in
            subst P (sym r) (record {
              slots = omega (arith, v.slots);
              waiting = ground (arith, v.waiting, ap (λ (q : List ℕ). length q) e);
              no_idle_slot = λ _. omega (arith, busy);
              in_order = cc (v.in_order, e, append_assoc w.started (caller ∷ []) rest);
            }))
    ]

Step-IsFair : (o : BulkheadOptions) {w u : World} → IsFair o w → Step o w u → IsFair o u
Step-IsFair o {w} v (arrives caller) = arrive-IsFair o caller w v
Step-IsFair o {w} v (finishes h) = finish-IsFair o w v h

-- However calls arrive and finish: at most `maxConcurrent` are active and at most `maxQueued` wait,
-- a call waits only while all slots are taken, and calls start in the order of their acceptance.
pub Reach-IsFair : (o : BulkheadOptions) {w : World} → Reach o start w → IsFair o w
Reach-IsFair o here = start-IsFair o
Reach-IsFair o (next r s) = Step-IsFair o (Reach-IsFair o r) s
