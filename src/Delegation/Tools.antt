-- ===== src/Delegation/Tools.antt =====
-- Names of tools, and lists of them.
use agent_sdk.Common.{
  Bool, ◌&&◌, String, List, [], ◌∷◌, Option, none, some, ◌==◌, if◌then◌else◌, ◌≡◌, refl,
}
use Prim.Native.Char.{code}

-- `xs.filter(test)`
abbrev pub keep : (String → Bool) → List String → List String
keep test [] = []
keep test (x ∷ xs) = let rest = keep test xs in if test x then x ∷ rest else rest

-- The text behind the underscores at the front, if there are two.
pub after_prefix : String → Option String
after_prefix String.[] = none
after_prefix (String.◌∷◌ c String.[]) = none
after_prefix (String.◌∷◌ c (String.◌∷◌ d s)) = if code c == 95 && code d == 95 then some s else none

-- The text behind the last two underscores.
pub after_last : String → Option String
unfolding after_prefix
after_last String.[] = none
after_last (String.◌∷◌ c s) = elim (after_last s) [
  | some t ↦ some t
  | none ↦ after_prefix (String.◌∷◌ c s)
]

-- `baseToolName`: the prefix `mcp__<server>__` is cut off.
unfoldable pub base_tool_name : String → String
unfolding after_last
base_tool_name name = elim (after_last name) [ none ↦ name | some t ↦ t ]

base_of_mcp : base_tool_name "mcp__team__spawn_dag" ≡ "spawn_dag"
unfolding base_tool_name
base_of_mcp = refl
