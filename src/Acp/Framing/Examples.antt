-- ===== src/Acp/Framing/Examples.antt =====
-- Two messages in three chunks. The text of a line is the one of its length.
use agent_sdk.Acp.Framing.RoundTrip.{push_all-encode_all}
use agent_sdk.Acp.Framing.Split.{split, last_line, push_all-split}
use agent_sdk.Acp.Framing.{push_all, ℕ, String, concat, flush, none}
use agent_sdk.Common.{[], ◌∷◌, refl, length, List, ◌≡◌, if◌then◌else◌, map, ◌==◌}

abbrev decode : List ℕ → String
decode bytes = if length bytes == 2 then "two" else "other"

abbrev chunks : List (List ℕ)
chunks = (7 ∷ []) ∷ ((8 ∷ (10 ∷ (9 ∷ []))) ∷ ((10 ∷ []) ∷ []))

push_all-split_example :
    let out = push_all decode [] chunks in
    let stream = split [] (concat chunks) in
    (out.1 ≡ map decode stream.0) × ((flush decode out.0).1 ≡ last_line decode stream.1)
push_all-split_example = push_all-split decode chunks

push_all-encode_all_example :
    let out = push_all decode [] chunks in
    (out.1 ≡ "two" ∷ ("other" ∷ [])) × ((flush decode out.0).1 ≡ none)
push_all-encode_all_example =
    push_all-encode_all decode ((7 ∷ (8 ∷ [])) ∷ ((9 ∷ []) ∷ [])) chunks
      ((refl, (refl, tt)), ((refl, tt), tt)) refl
