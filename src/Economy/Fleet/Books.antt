-- ===== src/Economy/Fleet/Books.antt =====
-- A window of costs and a ledger that agree on what is recent.
use agent_sdk.Common.{
  ℕ, ◌≤◌, ◌+◌, ◌≡◌, List, [], ◌∷◌, ◌++◌, All-append, refl, ap, subst, ◌∙◌, sym, arith,
}
use agent_sdk.Economy.Fleet.{CircuitBreakerConfig, SpendEntry, evict, total}
use agent_sdk.Economy.Fleet.Window.{
  recent, recent, Sorted, Until, evict-recent, recent-append, recent-recent, recent-All,
  recent-Sorted, append-Sorted, total-recent-le, Until-later,
}

-- The window is in order, and from now on what is recent in it is what is recent in the ledger.
pub record Agrees (o : CircuitBreakerConfig) (clock : ℕ) (window ledger : List SpendEntry)
    : Type 0 where
  pub sorted : Sorted window
  pub until : Until clock window
  pub same_recent : (now : ℕ) → clock ≤ now → recent o now window ≡ recent o now ledger

pub evict-Agrees :
    (o : CircuitBreakerConfig) (clock : ℕ) (window ledger : List SpendEntry)
    → Agrees o clock window ledger
    → Agrees o clock (evict o clock window) ledger
evict-Agrees o clock window ledger a =
    subst (λ (l : List SpendEntry). Agrees o clock l ledger)
      (sym (evict-recent o clock window a.sorted))
      (record {
        sorted = recent-Sorted o clock window a.sorted;
        until = recent-All (λ (x : SpendEntry). x.ts ≤ clock) o clock window a.until;
        same_recent = λ now h. recent-recent o clock now window h ∙ a.same_recent now h;
      })

pub note-Agrees :
    (o : CircuitBreakerConfig) (clock cost : ℕ) (window ledger : List SpendEntry)
    → Agrees o clock window ledger
    → let e : SpendEntry = record { ts = clock; cost_usd = cost } in
      Agrees o clock (window ++ (e ∷ [])) (ledger ++ (e ∷ []))
note-Agrees o clock cost window ledger a =
    let e : SpendEntry = record { ts = clock; cost_usd = cost } in
    record {
      sorted = append-Sorted e window a.sorted a.until;
      until =
          All-append (λ (x : SpendEntry). x.ts ≤ clock) window (e ∷ []) a.until (omega arith, tt);
      same_recent = λ now h.
          recent-append o now window (e ∷ [])
          ∙ ap (λ (l : List SpendEntry). l ++ recent o now (e ∷ [])) (a.same_recent now h)
          ∙ sym (recent-append o now ledger (e ∷ []));
    }

pub later-Agrees :
    (o : CircuitBreakerConfig) (clock ms : ℕ) (window ledger : List SpendEntry)
    → Agrees o clock window ledger
    → Agrees o (clock + ms) window ledger
later-Agrees o clock ms window ledger a = record {
  sorted = a.sorted;
  until = Until-later clock (clock + ms) window (omega arith) a.until;
  same_recent = λ now h. a.same_recent now (omega (arith, h));
}

pub total-evict :
    (o : CircuitBreakerConfig) (clock : ℕ) (window ledger : List SpendEntry)
    → Agrees o clock window ledger
    → total (evict o clock window) ≡ total (recent o clock ledger)
total-evict o clock window ledger a =
    ap total (evict-recent o clock window a.sorted ∙ a.same_recent clock (omega arith))

pub evict-le :
    (o : CircuitBreakerConfig) (clock : ℕ) (window ledger : List SpendEntry)
    → Agrees o clock window ledger
    → total (evict o clock window) ≤ total window
evict-le o clock window ledger a =
    rw (evict-recent o clock window a.sorted) (total-recent-le o clock window)

pub empty-Agrees : (o : CircuitBreakerConfig) (clock : ℕ) → Agrees o clock [] []
empty-Agrees o clock = record { sorted = tt; until = tt; same_recent = λ now h. refl }
