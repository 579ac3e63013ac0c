-- ===== src/Trace/Canonical.antt =====
-- src/trace/canonical.ts: which values canonicalize takes. The text that it makes of them is a library's.
use agent_sdk.Common.{ℕ, Bool, true, false, ◌&&◌, String, List, [], ◌∷◌, ◌≡◌, refl}

-- A JavaScript value, as preprocess tells them apart. `again` is an object that encloses itself, and
-- `absent` undefined, a function or a symbol. An array or an object is its values, in order.
pub data Payload : Type 0 where
  null_value absent : Payload
  boolean : Bool → Payload
  number : ℕ → Payload
  text : String → Payload
  nan infinite minus_zero again invalid_date : Payload
  no_values : Payload
  with_value : Payload → Payload → Payload

-- Whether preprocess returns, and does not throw.
unfoldable pub is_serializable : Payload → Bool
is_serializable null_value = true
is_serializable absent = true
is_serializable (boolean b) = true
is_serializable (number n) = true
is_serializable (text s) = true
is_serializable nan = false
is_serializable infinite = false
is_serializable minus_zero = false
is_serializable again = false
is_serializable invalid_date = false
is_serializable no_values = true
is_serializable (with_value v rest) = is_serializable v && is_serializable rest

-- An array of texts.
unfoldable pub texts : List String → Payload
texts [] = no_values
texts (s ∷ ss) = with_value (text s) (texts ss)

pub texts_serializable : (ss : List String) → is_serializable (texts ss) ≡ true
unfolding is_serializable texts
texts_serializable [] = refl
texts_serializable (s ∷ ss) = texts_serializable ss
