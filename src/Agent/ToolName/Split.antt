-- ===== src/Agent/ToolName/Split.antt =====
-- Canonical tool names (app/internal/agent/tool_name.go) and the names of MCP tools
-- (app/internal/agent/agent_mcp.go).
use shell_agent_v.Base.{
  ◌+◌, ◌≡◌, ◌≢◌, refl, true, false, ◌&&◌, some, List, [], ◌∷◌, ◌++◌, append_assoc, arith, inl, inr,
  ◌⊎◌, if◌then◌else◌, ◌==◌, Bool-cases, Option-cases, length, drop, ltb, length-append, All,
}
use shell_agent_v.Text.{Text, codes, ◌=ᵗ◌, member, has_prefix, replace_byte}
use shell_agent_v.Text.Laws.{text_eq→eq, text_eq_refl}
use shell_agent_v.Agent.ToolName.{
  is_empty, canonical_tool_name, cut_at_separator, guardian_with, split_first, marker,
  best_guardian, split_longest, split_mcp_name,
}

replace_byte-of_none : (s : Text) → All (λ c. c ≢ b'-') s → replace_byte b'-' (b'_' ∷ []) s ≡ s
unfolding replace_byte
replace_byte-of_none [] h = refl
replace_byte-of_none (c ∷ s) (h, hs) = ground (arith, replace_byte-of_none s hs)

canonical_has_no_dash : (s : Text) → All (λ c. c ≢ b'-') (canonical_tool_name s)
unfolding canonical_tool_name
canonical_has_no_dash [] = tt
canonical_has_no_dash (c ∷ s) = elim (Bool-cases (c == b'-')) [
  | inl e ↦ rw e (omega arith, canonical_has_no_dash s)
  | inr e ↦ rw e (ground arith, canonical_has_no_dash s)
]

pub canonical_tool_name_idem :
    (s : Text) → canonical_tool_name (canonical_tool_name s) ≡ canonical_tool_name s
canonical_tool_name_idem s =
    unfold canonical_tool_name in replace_byte-of_none _ (canonical_has_no_dash s)

has_prefix-append_drop : (s p : Text) → has_prefix s p ≡ true → s ≡ p ++ drop (length p) s
unfolding has_prefix
has_prefix-append_drop s [] h = refl
has_prefix-append_drop [] (c ∷ p) h = cc
has_prefix-append_drop (d ∷ s) (c ∷ p) h = ground (arith, has_prefix-append_drop s p)

cut_at_separator-append :
    (s before after : Text)
    → cut_at_separator s ≡ some (before, after)
    → s ≡ before ++ (codes "__" ++ after)
unfolding cut_at_separator
cut_at_separator-append [] b a h = cc
cut_at_separator-append (c ∷ s) b a h = elim (Bool-cases (has_prefix (c ∷ s) (codes "__"))) [
  | inl e ↦ ground (arith, has_prefix-append_drop (c ∷ s) (codes "__") e)
  | inr e ↦ elim (Option-cases (cut_at_separator s)) [
    | inl n ↦ ground (arith, e, n)
    | inr ((b', a'), q) ↦ ground (arith, e, q, cut_at_separator-append s b' a' q)
  ]
]

guardian_with-finds :
    (canon : Text) (names : List Text) (g : Text)
    → guardian_with canon names ≡ some g
    → (member g names ≡ true) × (canonical_tool_name g ≡ canon)
unfolding guardian_with member
guardian_with-finds canon [] g h = cc
guardian_with-finds canon (name ∷ names) g h =
    elim (Bool-cases (canonical_tool_name name =ᵗ canon)) [
      | inl e ↦ ground (arith, e, text_eq→eq (canonical_tool_name name) canon e, text_eq_refl name)
      | inr e ↦ ground (arith, e, guardian_with-finds canon names g)
    ]

split_first_sound :
    (rest : Text) (names : List Text) (g t : Text)
    → split_first rest names ≡ some (g, t)
    → (member g names ≡ true)
      × (rest ≡ canonical_tool_name g ++ (codes "__" ++ t))
      × (is_empty t ≡ false)
unfolding split_first
split_first_sound rest names g t h = elim (Option-cases (cut_at_separator rest)) [
  | inl n ↦ ground (arith, n)
  | inr ((b, a), q) ↦ elim (Option-cases (guardian_with b names)) [
    | inl n ↦ ground (arith, n, q)
    | inr (g', r) ↦
        ground (arith, q, r, guardian_with-finds b names g' r, cut_at_separator-append rest b a q)
  ]
]

-- What the search for the longest name holds: what it began with, or a name that fits.
IsFit : Text → Text → List Text → Text → Type 0
IsFit rest best names found =
    (found ≡ best) ⊎ ((member found names ≡ true) × (has_prefix rest (marker found) ≡ true))

IsFit-cons :
    (rest best name : Text) (names : List Text) (found : Text)
    → IsFit rest
        (if has_prefix rest (marker name) && ltb (length best) (length name) then name else best)
        names
        found
    → IsFit rest best (name ∷ names) found
unfolding member IsFit
IsFit-cons rest best name names found h =
    elim (Bool-cases (has_prefix rest (marker name) && ltb (length best) (length name))) [
      | inl e ↦ ground (arith, e, text_eq_refl name)
      | inr e ↦ ground (arith, e)
    ]

best_guardian-IsFit :
    (rest : Text) (names : List Text) (best : Text)
    → IsFit rest best names (best_guardian rest best names)
unfolding best_guardian
best_guardian-IsFit rest [] best = unfold IsFit in inl refl
best_guardian-IsFit rest (name ∷ names) best = IsFit-cons rest best name names _ (
    best_guardian-IsFit rest names
      (if has_prefix rest (marker name) && ltb (length best) (length name) then name else best))

best_guardian-fits :
    (rest : Text) (names : List Text)
    → (best_guardian rest [] names ≡ [])
      ⊎ ((member (best_guardian rest [] names) names ≡ true)
          × (has_prefix rest (marker (best_guardian rest [] names)) ≡ true))
unfolding IsFit
best_guardian-fits rest names = best_guardian-IsFit rest names []

marker_split :
    (rest g : Text)
    → has_prefix rest (marker g) ≡ true
    → rest ≡ canonical_tool_name g ++ (codes "__" ++ drop (length (canonical_tool_name g) + 2) rest)
marker_split rest g h = ground (
  arith,
  has_prefix-append_drop rest (marker g) h,
  length-append (canonical_tool_name g) (codes "__"),
  append_assoc (canonical_tool_name g) (codes "__")
      (drop (length (canonical_tool_name g) + 2) rest),
)

split_longest_sound :
    (rest : Text) (names : List Text) (g t : Text)
    → split_longest rest names ≡ some (g, t)
    → (member g names ≡ true)
      × (rest ≡ canonical_tool_name g ++ (codes "__" ++ t))
      × (is_empty t ≡ false)
unfolding split_longest
split_longest_sound rest names g t h = elim (best_guardian-fits rest names) [
  | inl e ↦ ground (arith, e)
  | inr (m, p) ↦ ground (arith, m, marker_split rest (best_guardian rest [] names) p)
]

-- splitMCPName returns a registered guardian and a tool that is not empty, and the text it was
-- given is the guardian's canonical name, `__` and that tool.
pub split_mcp_name_sound :
    (rest : Text) (names : List Text) (guardian tool : Text)
    → split_mcp_name rest names ≡ some (guardian, tool)
    → (member guardian names ≡ true)
      × (rest ≡ canonical_tool_name guardian ++ (codes "__" ++ tool))
      × (is_empty tool ≡ false)
unfolding split_mcp_name
split_mcp_name_sound rest names g t h = elim (Option-cases (split_first rest names)) [
  | inl n ↦ split_longest_sound rest names g t (ground (arith, n))
  | inr (r, q) ↦ split_first_sound rest names g t (ground (arith, q))
]
