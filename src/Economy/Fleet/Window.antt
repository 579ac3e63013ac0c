-- ===== src/Economy/Fleet/Window.antt =====
-- The rolling window: dropping stale entries from the front drops them all, while times do not fall.
use agent_sdk.Common.{
  ℕ, ◌≤◌, ◌≡◌, List, [], ◌∷◌, ◌++◌, All, All-append, refl, arith, if◌then◌else◌, ◌+◌, ◌<◌, inl,
  if_cases, ◌⊎◌, inr,
}
use agent_sdk.Economy.Fleet.{CircuitBreakerConfig, SpendEntry, evict, is_stale, total}

-- The entries that are not stale, wherever they are.
pub recent : CircuitBreakerConfig → ℕ → List SpendEntry → List SpendEntry
recent o now [] = []
recent o now (e ∷ es) = let rest = recent o now es in if is_stale o now e then rest else e ∷ rest

abbrev pub Sorted : List SpendEntry → Type 0
Sorted [] = Unit
Sorted (e ∷ es) = All (λ (x : SpendEntry). e.ts ≤ x.ts) es × Sorted es

abbrev pub Until : ℕ → List SpendEntry → Type 0
Until now es = All (λ (x : SpendEntry). x.ts ≤ now) es

recent-id :
    (o : CircuitBreakerConfig) (now t : ℕ) (es : List SpendEntry)
    → now ≤ t + o.window_ms
    → All (λ (x : SpendEntry). t ≤ x.ts) es
    → recent o now es ≡ es
unfolding recent
recent-id o now t [] h all = refl
recent-id o now t (e ∷ es) h all = ground (arith, recent-id o now t es h all.1, all.0)

decide-stale :
    (o : CircuitBreakerConfig) (now : ℕ) (e : SpendEntry)
    → (e.ts + o.window_ms < now) ⊎ (now ≤ e.ts + o.window_ms)
decide-stale o now e = ground arith

pub evict-recent :
    (o : CircuitBreakerConfig) (now : ℕ) (es : List SpendEntry)
    → Sorted es
    → evict o now es ≡ recent o now es
unfolding evict recent
evict-recent o now [] s = refl
evict-recent o now (e ∷ es) s = elim (decide-stale o now e) [
  | inl h ↦ ground (arith, h, evict-recent o now es s.1)
  | inr h ↦ ground (arith, h, recent-id o now e.ts es h s.0)
]

pub recent-append :
    (o : CircuitBreakerConfig) (now : ℕ) (es fs : List SpendEntry)
    → recent o now (es ++ fs) ≡ recent o now es ++ recent o now fs
unfolding recent
recent-append o now [] fs = refl
recent-append o now (e ∷ es) fs = ground (arith, recent-append o now es fs)

pub recent-recent :
    (o : CircuitBreakerConfig) (now later : ℕ) (es : List SpendEntry)
    → now ≤ later
    → recent o later (recent o now es) ≡ recent o later es
unfolding recent
recent-recent o now later [] h = refl
recent-recent o now later (e ∷ es) h = ground (arith, recent-recent o now later es h)

pub recent-All {κ} :
    (P : SpendEntry → Type κ) (o : CircuitBreakerConfig) (now : ℕ) (es : List SpendEntry)
    → All P es
    → All P (recent o now es)
unfolding recent
recent-All P o now [] h = tt
recent-All P o now (e ∷ es) h =
    if_cases (λ (l : List SpendEntry). All P l) (is_stale o now e) _ _
      (λ _. recent-All P o now es h.1) (λ _. (h.0, recent-All P o now es h.1))

pub recent-Sorted :
    (o : CircuitBreakerConfig) (now : ℕ) (es : List SpendEntry)
    → Sorted es
    → Sorted (recent o now es)
unfolding recent
recent-Sorted o now [] s = tt
recent-Sorted o now (e ∷ es) s =
    if_cases Sorted (is_stale o now e) _ _ (λ _. recent-Sorted o now es s.1)
      (λ _. (recent-All (λ (x : SpendEntry). e.ts ≤ x.ts) o now es s.0, recent-Sorted o now es s.1))

pub append-Sorted :
    (e : SpendEntry) (es : List SpendEntry) → Sorted es → Until e.ts es → Sorted (es ++ (e ∷ []))
append-Sorted e [] s u = (tt, tt)
append-Sorted e (x ∷ xs) s u = (
  All-append (λ (y : SpendEntry). x.ts ≤ y.ts) xs (e ∷ []) s.0 (u.0, tt),
  append-Sorted e xs s.1 u.1,
)

pub total-recent-le :
    (o : CircuitBreakerConfig) (now : ℕ) (es : List SpendEntry) → total (recent o now es) ≤ total es
unfolding recent
total-recent-le o now [] = omega arith
total-recent-le o now (e ∷ es) = ground (arith, total-recent-le o now es)

pub Until-later :
    (now later : ℕ) (es : List SpendEntry) → now ≤ later → Until now es → Until later es
Until-later now later [] h u = tt
Until-later now later (e ∷ es) h u = (omega (arith, u.0), Until-later now later es h u.1)
