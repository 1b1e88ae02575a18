-- ===== src/Agent/ToolName.antt =====
-- The names of tools (app/internal/agent/tool_name.go, and agent.go's canonicaliseMITLOverrideKeys):
-- the canonical form, the maps keyed by it, the parts of an MCP tool's name, and the migration of
-- the approval overrides.
pub mod Split
pub mod Overrides
use shell_agent_v.Base.{
  ◌+◌, Bool, true, false, ◌&&◌, ◌||◌, Option, none, some, List, [], ◌∷◌, ◌++◌, length, drop, ltb,
  if◌then◌else◌,
}
use shell_agent_v.Text.{Text, codes, ◌=ᵗ◌, has_prefix, replace_byte}

abbrev pub is_empty : Text → Bool
is_empty [] = true
is_empty (c ∷ s) = false

unfoldable pub canonical_tool_name : Text → Text
unfolding replace_byte
canonical_tool_name name = replace_byte b'-' (b'_' ∷ []) name

module _ {ℓ} {V : Type ℓ} where
  unfoldable pub find : Text → List (Text × V) → Option V
  unfolding ◌=ᵗ◌
  find k [] = none
  find k ((j, v) ∷ m) = elim (find k m) [ some w ↦ some w | none ↦ if j =ᵗ k then some v else none ]

-- The text before and after the first `__`.
unfoldable pub cut_at_separator : Text → Option (Text × Text)
unfolding has_prefix
cut_at_separator [] = none
cut_at_separator (c ∷ s) =
    if has_prefix (c ∷ s) (codes "__")
    then some ([], drop 2 (c ∷ s))
    else elim (cut_at_separator s) [ none ↦ none | some (before, after) ↦ some (c ∷ before, after) ]

unfoldable pub guardian_with : Text → List Text → Option Text
unfolding ◌=ᵗ◌
guardian_with canon [] = none
guardian_with canon (name ∷ names) =
    if canonical_tool_name name =ᵗ canon then some name else guardian_with canon names

unfoldable pub split_first : Text → List Text → Option (Text × Text)
unfolding cut_at_separator guardian_with
split_first rest names = elim (cut_at_separator rest) [
  | none ↦ none
  | some (before, after) ↦
      if is_empty before || is_empty after
      then none
      else elim (guardian_with before names) [ none ↦ none | some name ↦ some (name, after) ]
]

abbrev pub marker : Text → Text
marker name = canonical_tool_name name ++ codes "__"

unfoldable pub best_guardian : Text → Text → List Text → Text
unfolding has_prefix
best_guardian rest best [] = best
best_guardian rest best (name ∷ names) =
    best_guardian rest
      (if has_prefix rest (marker name) && ltb (length best) (length name) then name else best)
      names

unfoldable pub split_longest : Text → List Text → Option (Text × Text)
unfolding best_guardian
split_longest rest names =
    let best = best_guardian rest [] names in
    let tool = drop (length (canonical_tool_name best) + 2) rest in
    if is_empty best then none else if is_empty tool then none else some (best, tool)

-- `names` are the keys of the guardians in their order of iteration.
unfoldable pub split_mcp_name : Text → List Text → Option (Text × Text)
unfolding split_first split_longest
split_mcp_name rest names = elim (split_first rest names) [
  | some r ↦ some r
  | none ↦ split_longest rest names
]

-- The upstream name of a tool whose canonical form was called.
unfoldable pub original_tool_name : Text → List Text → Text
unfolding ◌=ᵗ◌
original_tool_name canon [] = canon
original_tool_name canon (t ∷ ts) =
    if canonical_tool_name t =ᵗ canon then t else original_tool_name canon ts

abbrev pub keys {ℓ} : {V : Type ℓ} → List (Text × V) → List Text
keys [] = []
keys ((k, v) ∷ m) = k ∷ keys m

-- canonicaliseMITLOverrideKeys: the entries in the order in which the loop meets them.
unfoldable pub put {ℓ} : {V : Type ℓ} → Text → V → List (Text × V) → List (Text × V)
unfolding ◌=ᵗ◌
put k v [] = (k, v) ∷ []
put k v ((j, w) ∷ m) = if j =ᵗ k then (j, v) ∷ m else (j, w) ∷ put k v m

unfoldable pub migrate_one : Text → Bool → List (Text × Bool) → List (Text × Bool)
unfolding canonical_tool_name
migrate_one k v migrated =
    let canon = canonical_tool_name k in
    elim (find canon migrated) [
      | some existing ↦ if canon =ᵗ k then put canon existing migrated else put canon v migrated
      | none ↦ put canon v migrated
    ]

unfoldable pub migrate_from : List (Text × Bool) → List (Text × Bool) → List (Text × Bool)
migrate_from [] migrated = migrated
migrate_from ((k, v) ∷ rest) migrated = migrate_from rest (migrate_one k v migrated)

unfoldable pub canonicalise_mitl_override_keys : List (Text × Bool) → List (Text × Bool)
unfolding migrate_from
canonicalise_mitl_override_keys overrides = migrate_from overrides []
