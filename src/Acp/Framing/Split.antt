-- ===== src/Acp/Framing/Split.antt =====
-- The decoder gives the lines of the stream, however the stream comes in chunks.
use mathlib.Core.List.{append-nil, append_assoc}
use agent_sdk.Acp.Framing.{concat, hold, scan, newline, push_all, Option, flush, push, none, some}
use agent_sdk.Common.{
  [], ◌∷◌, List, ℕ, ◌++◌, ◌≢◌, String, if◌then◌else◌, ◌≡◌, ◌==◌, Bool-cases, map, refl, inl, inr,
  ap, sym, arith, ◌∙◌,
}

-- The complete lines of a stream whose first line begins with `line`, and what is left after the last
-- newline.
abbrev pub split : List ℕ → List ℕ → List (List ℕ) × List ℕ
split line [] = ([], line)
split line (b ∷ bs) =
    let (lines, left) = split [] bs in
    let on = split (line ++ (b ∷ [])) bs in if b == newline then (line ∷ lines, left) else on

split-append :
    (line xs ys : List ℕ)
    → split line (xs ++ ys)
      ≡ ((split line xs).0 ++ (split (split line xs).1 ys).0, (split (split line xs).1 ys).1)
split-append line [] ys = refl
split-append line (x ∷ xs) ys = elim (Bool-cases (x == newline)) [
  | inl e ↦ rw e (cc (split-append [] xs ys))
  | inr e ↦ rw e (split-append (line ++ (x ∷ [])) xs ys)
]

-- No part is empty.
abbrev pub Filled : List (List ℕ) → Type 0
Filled [] = Unit
Filled (part ∷ parts) = (part ≢ []) × Filled parts

concat-append : (ps qs : List (List ℕ)) → concat (ps ++ qs) ≡ concat ps ++ concat qs
concat-append [] qs = refl
concat-append (p ∷ ps) qs =
    ap (λ (l : List ℕ). p ++ l) (concat-append ps qs) ∙ sym (append_assoc p (concat ps) (concat qs))

concat-hold : (ps : List (List ℕ)) (seen : List ℕ) → concat (hold ps seen) ≡ concat ps ++ seen
concat-hold ps [] = sym (append-nil (concat ps))
concat-hold ps (b ∷ bs) =
    concat-append ps ((b ∷ bs) ∷ []) ∙ ap (λ (l : List ℕ). concat ps ++ l) (append-nil (b ∷ bs))

hold-Filled : (ps : List (List ℕ)) (seen : List ℕ) → Filled ps → Filled (hold ps seen)
hold-Filled ps [] f = f
hold-Filled [] (b ∷ bs) f = (λ e. absurd cc, tt)
hold-Filled (p ∷ ps) (b ∷ bs) f = (f.0, hold-Filled ps (b ∷ bs) f.1)

module _ (decode : List ℕ → String) where
  -- The decoder's parts are what is left of the stream, and its lines the stream's lines.
  record Follows (line bs : List ℕ) (out : List (List ℕ) × List String) : Type 0 where
    left_over : concat out.0 ≡ (split line bs).1
    filled : Filled out.0
    all_lines : out.1 ≡ map decode (split line bs).0

  scan-Follows :
      (pending : List (List ℕ)) (seen bs : List ℕ)
      → Filled pending
      → Follows (concat pending ++ seen) bs (scan decode pending seen bs)
  unfolding scan
  scan-Follows pending seen [] f = record {
    left_over = concat-hold pending seen;
    filled = hold-Filled pending seen f;
    all_lines = refl;
  }
  scan-Follows pending seen (b ∷ bs) f = elim (Bool-cases (b == newline)) [
    | inl e ↦
        (let rest = scan-Follows [] [] bs tt in
          record {
            left_over = ground (arith, rest.left_over);
            filled = rw (e, scan) rest.filled;
            all_lines = ground (arith, rest.all_lines);
          })
    | inr e ↦
        (let rest = scan-Follows pending (seen ++ (b ∷ [])) bs f in
          let at = append_assoc (concat pending) seen (b ∷ []) in
          record {
            left_over = ground (arith, rest.left_over, at);
            filled = rw (e, scan) rest.filled;
            all_lines = ground (arith, rest.all_lines, at);
          })
  ]

  map-append : (xs ys : List (List ℕ)) → map decode (xs ++ ys) ≡ map decode xs ++ map decode ys
  map-append [] ys = refl
  map-append (x ∷ xs) ys = ap (λ (l : List String). decode x ∷ l) (map-append xs ys)

  push_all-Follows :
      (pending chunks : List (List ℕ))
      → Filled pending
      → Follows (concat pending) (concat chunks) (push_all decode pending chunks)
  unfolding push_all push
  push_all-Follows pending [] f = record { left_over = refl; filled = f; all_lines = refl }
  push_all-Follows pending (chunk ∷ chunks) f =
      let one = scan-Follows pending [] chunk f in
      let first = scan decode pending [] chunk in
      let rest = push_all-Follows first.0 chunks one.filled in
      let start = append-nil (concat pending) in
      let whole = split-append (concat pending) chunk (concat chunks) in
      let line : concat first.0 ≡ (split (concat pending) chunk).1 =
        one.left_over ∙ ap (λ (l : List ℕ). (split l chunk).1) start in
      let lines : first.1 ≡ map decode (split (concat pending) chunk).0 =
        one.all_lines ∙ ap (λ (l : List ℕ). map decode (split l chunk).0) start in
      record {
        left_over =
            rest.left_over
            ∙ ap (λ (l : List ℕ). (split l (concat chunks)).1) line
            ∙ sym (ap (λ (o : List (List ℕ) × List ℕ). o.1) whole);
        filled = rest.filled;
        all_lines =
            ap (λ (l : List String). l ++ (push_all decode first.0 chunks).1) lines
            ∙ ap (λ (l : List String). map decode (split (concat pending) chunk).0 ++ l)
                (rest.all_lines ∙ ap (λ (l : List ℕ). map decode (split l (concat chunks)).0) line)
            ∙ sym (
                map-append (split (concat pending) chunk).0
                  (split (split (concat pending) chunk).1 (concat chunks)).0)
            ∙ sym (ap (λ (o : List (List ℕ) × List ℕ). map decode o.0) whole);
      }

  -- The line that the end of the stream gives.
  abbrev pub last_line : List ℕ → Option String
  last_line [] = none
  last_line (b ∷ bs) = some (decode (b ∷ bs))

  flush-last_line :
      (pending : List (List ℕ))
      → Filled pending
      → (flush decode pending).1 ≡ last_line (concat pending)
  unfolding flush
  flush-last_line [] f = refl
  flush-last_line ([] ∷ parts) f = absurd (f.0 refl)
  flush-last_line ((b ∷ bs) ∷ parts) f =
      ap (λ (l : List ℕ). some (decode l)) (append-nil (concat ((b ∷ bs) ∷ parts)))

  -- However the stream comes in chunks, the decoder gives the lines of the whole stream, in order, and
  -- its flush gives what is left after the last newline, if anything is.
  pub push_all-split :
      (chunks : List (List ℕ))
      → let out = push_all decode [] chunks in
        let stream = split [] (concat chunks) in
        (out.1 ≡ map decode stream.0) × ((flush decode out.0).1 ≡ last_line stream.1)
  push_all-split chunks =
      let all = push_all-Follows [] chunks tt in
      (
        all.all_lines,
        flush-last_line (push_all decode [] chunks).0 all.filled ∙ ap last_line all.left_over,
      )
