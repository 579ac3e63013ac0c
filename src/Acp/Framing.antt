-- ===== src/Acp/Framing.antt =====
-- src/acp/framing.ts: messages as lines of a byte stream. `TextDecoder` is a parameter.
pub mod Split
pub mod RoundTrip
mod Examples
use agent_sdk.Common.{ℕ, String, List, [], ◌∷◌, ◌++◌, Option, none, some, ◌==◌, if◌then◌else◌}

abbrev pub newline : ℕ
newline = 10

-- `encodeAcpFrame`, on the bytes of the message.
abbrev pub encode_acp_frame : List ℕ → List ℕ
encode_acp_frame message = message ++ (newline ∷ [])

-- The bytes of all parts that are pending.
abbrev pub concat : List (List ℕ) → List ℕ
concat [] = []
concat (part ∷ parts) = part ++ concat parts

-- What stays pending of a chunk: nothing, if no byte is left after the last newline.
abbrev pub hold : List (List ℕ) → List ℕ → List (List ℕ)
hold pending [] = pending
hold pending (b ∷ bs) = pending ++ ((b ∷ bs) ∷ [])

module _ (decode : List ℕ → String) where
  abbrev pub take_line : List (List ℕ) → List ℕ → String
  take_line pending tail = decode (concat pending ++ tail)

  -- The loop over the newlines of a chunk. `seen` is `chunk.subarray(start, i)`.
  pub scan : List (List ℕ) → List ℕ → List ℕ → List (List ℕ) × List String
  scan pending seen [] = (hold pending seen, [])
  scan pending seen (b ∷ bs) =
      let (left, lines) = scan [] [] bs in
      let on = scan pending (seen ++ (b ∷ [])) bs in
      if b == newline then (left, take_line pending seen ∷ lines) else on

  unfoldable pub push : List (List ℕ) → List ℕ → List (List ℕ) × List String
  unfolding scan
  push pending chunk = scan pending [] chunk

  -- The pending parts, and the line that the end of the stream gives.
  unfoldable pub flush : List (List ℕ) → List (List ℕ) × Option String
  flush [] = ([], none)
  flush (part ∷ parts) = ([], some (take_line (part ∷ parts) []))

  -- Chunk by chunk.
  unfoldable pub push_all : List (List ℕ) → List (List ℕ) → List (List ℕ) × List String
  unfolding push
  push_all pending [] = (pending, [])
  push_all pending (chunk ∷ chunks) =
      let (pending', lines) = push pending chunk in
      let (left, more) = push_all pending' chunks in (left, lines ++ more)
