-- ===== src/Agent/ToolName/Overrides.antt =====
-- canonicaliseMITLOverrideKeys (app/internal/agent/agent.go).
use mathlib.Core.Path.{subst}
use shell_agent_v.Base.{
  ◌≡◌, Bool, false, List, [], ◌∷◌, arith, inl, inr, Bool-cases, Option-cases, some, All, sym,
}
use shell_agent_v.Text.{Text, ◌=ᵗ◌}
use shell_agent_v.Text.Laws.{text_eq→eq, text_eq_refl}
use shell_agent_v.Agent.ToolName.{
  canonical_tool_name, find, put, migrate_one, migrate_from, canonicalise_mitl_override_keys,
}
use shell_agent_v.Agent.ToolName.Split.{canonical_tool_name_idem}

-- Where a hyphenated key and its canonical form are both configured, the value of the hyphenated
-- key is kept, whichever the loop meets first: an override that was set under the canonical
-- name is lost.
pub hyphenated_key_wins :
    (k : Text) (v w : Bool)
    → (canonical_tool_name k =ᵗ k) ≡ false
    → (canonicalise_mitl_override_keys ((k, v) ∷ (canonical_tool_name k, w) ∷ [])
        ≡ (canonical_tool_name k, v) ∷ [])
      × (canonicalise_mitl_override_keys ((canonical_tool_name k, w) ∷ (k, v) ∷ [])
          ≡ (canonical_tool_name k, v) ∷ [])
unfolding canonicalise_mitl_override_keys migrate_from migrate_one find put
hyphenated_key_wins k v w h =
    ground (arith, canonical_tool_name_idem k, text_eq_refl (canonical_tool_name k))

IsCanonical : Text × Bool → Type 0
IsCanonical e = canonical_tool_name e.0 ≡ e.0

put-IsCanonical :
    (k : Text) (v : Bool) (m : List (Text × Bool))
    → canonical_tool_name k ≡ k
    → All IsCanonical m
    → All IsCanonical (put k v m)
unfolding put IsCanonical
put-IsCanonical k v [] e h = (e, tt)
put-IsCanonical k v ((j, w) ∷ m) e (p, h) = elim (Bool-cases (j =ᵗ k)) [
  | inl q ↦ rw q (p, h)
  | inr q ↦ rw q (p, put-IsCanonical k v m e h)
]

migrate_one-puts :
    (k : Text) (v : Bool) (m : List (Text × Bool))
    → (x : Bool) × (migrate_one k v m ≡ put (canonical_tool_name k) x m)
unfolding migrate_one
migrate_one-puts k v m = elim (Option-cases (find (canonical_tool_name k) m)) [
  | inl n ↦ (v, ground (arith, n))
  | inr (x, s) ↦ elim (Bool-cases (canonical_tool_name k =ᵗ k)) [
    | inl q ↦ (x, ground (arith, s, q))
    | inr q ↦ (v, ground (arith, s, q))
  ]
]

migrate_one-IsCanonical :
    (k : Text) (v : Bool) (m : List (Text × Bool))
    → All IsCanonical m
    → All IsCanonical (migrate_one k v m)
unfolding migrate_one
migrate_one-IsCanonical k v m h =
    let e = canonical_tool_name_idem k in
    let (x, q) = migrate_one-puts k v m in
    subst (All IsCanonical) (sym q) (put-IsCanonical (canonical_tool_name k) x m e h)

migrate_from-IsCanonical :
    (overrides m : List (Text × Bool))
    → All IsCanonical m
    → All IsCanonical (migrate_from overrides m)
unfolding migrate_from
migrate_from-IsCanonical [] m h = h
migrate_from-IsCanonical ((k, v) ∷ rest) m h =
    migrate_from-IsCanonical rest (migrate_one k v m) (migrate_one-IsCanonical k v m h)

find-canonical :
    (name : Text) (v : Bool) (m : List (Text × Bool))
    → All IsCanonical m
    → find name m ≡ some v
    → canonical_tool_name name ≡ name
unfolding find IsCanonical
find-canonical name v [] h q = cc
find-canonical name v ((j, w) ∷ m) (p, h) q = elim (Option-cases (find name m)) [
  | inl n ↦ ground (arith, n, text_eq→eq j name)
  | inr (x, s) ↦ find-canonical name x m h s
]

-- A key of the migrated overrides is canonical.
pub migrated_keys_fixed :
    (overrides : List (Text × Bool)) (name : Text) (v : Bool)
    → find name (canonicalise_mitl_override_keys overrides) ≡ some v
    → canonical_tool_name name ≡ name
unfolding canonicalise_mitl_override_keys
migrated_keys_fixed overrides name v q =
    find-canonical name v (migrate_from overrides []) (migrate_from-IsCanonical overrides [] tt) q
