-- ===== src/Acp/Framing/RoundTrip.antt =====
-- What is encoded message by message comes back, however the bytes are cut into chunks.
use agent_sdk.Acp.Framing.{encode_acp_frame, newline, concat, push_all, flush, none}
use agent_sdk.Acp.Framing.Split.{split, push_all-split, last_line}
use agent_sdk.Common.{[], ◌∷◌, ap, refl, ◌∙◌, List, ℕ, ◌==◌, All, String, ◌++◌, ◌≡◌, false, map}
use mathlib.Core.List.{append_assoc, append-nil}

-- No byte of the message is a newline.
abbrev pub OneLine : List ℕ → Type 0
OneLine [] = Unit
OneLine (b ∷ bs) = (b == newline ≡ false) × OneLine bs

split-encode :
    (line message rest : List ℕ)
    → OneLine message
    → split line (encode_acp_frame message ++ rest)
      ≡ ((line ++ message) ∷ (split [] rest).0, (split [] rest).1)
split-encode line [] rest one = cc (append-nil line)
split-encode line (b ∷ message) rest one = rw one.0 (
    split-encode (line ++ (b ∷ [])) message rest one.1
    ∙ ap (λ (l : List ℕ). (l ∷ (split [] rest).0, (split [] rest).1))
        (append_assoc line (b ∷ []) message))

-- The stream of the messages.
abbrev pub encode_all : List (List ℕ) → List ℕ
encode_all [] = []
encode_all (m ∷ ms) = encode_acp_frame m ++ encode_all ms

split-encode_all : (ms : List (List ℕ)) → All OneLine ms → split [] (encode_all ms) ≡ (ms, [])
split-encode_all [] one = refl
split-encode_all (m ∷ ms) one =
    split-encode [] m (encode_all ms) one.0 ∙ cc (split-encode_all ms one.1)

-- Messages without a newline, encoded one after the other and cut into chunks in any way, come back as
-- they were: the decoder gives the text of each, in order, and nothing is left for its flush.
pub push_all-encode_all :
    (decode : List ℕ → String) (ms chunks : List (List ℕ))
    → All OneLine ms
    → concat chunks ≡ encode_all ms
    → let out = push_all decode [] chunks in
      (out.1 ≡ map decode ms) × ((flush decode out.0).1 ≡ none)
push_all-encode_all decode ms chunks one stream =
    let whole : split [] (concat chunks) ≡ (ms, []) =
      ap (λ (l : List ℕ). split [] l) stream ∙ split-encode_all ms one in
    let (lines, left) = push_all-split decode chunks in
    (
      lines ∙ ap (λ (o : List (List ℕ) × List ℕ). map decode o.0) whole,
      left ∙ ap (λ (o : List (List ℕ) × List ℕ). last_line decode o.1) whole,
    )
