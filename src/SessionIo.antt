-- ===== src/SessionIo.antt =====
-- The export and import of sessions (app/internal/sessionio): the file names and titles. The other
-- parts are the children: Archive has the paths of a bundle, Bundle its validation, Rewrite the new
-- object ids in the texts, and Import the import with its rollback.
pub mod Archive
pub mod Bundle
pub mod Rewrite
pub mod Import
pub mod Titles
pub mod Paths
use shell_agent_v.Base.{
  ℕ, zero, suc, ◌+◌, ◌-◌, Bool, true, false, not, ◌&&◌, ◌||◌, Option, none, some, List, [], ◌∷◌,
  ◌++◌, length, take, ltb, ◌==◌, if◌then◌else◌,
}
use shell_agent_v.Text.{Text, codes, member, runes, encode, trim_space}
use shell_agent_v.Memory.Prompt.{decimal}

-- The number of an import: n of " (imported n)".
unfoldable pub numbered_title : Text → ℕ → Text
unfolding decimal
numbered_title base n = base ++ (codes " (imported " ++ (decimal n ++ codes ")"))

-- The loop from n, for as many rounds as the fuel says: 998 of them take n from 2 to 999.
unfoldable pub first_free : ℕ → ℕ → Text → List Text → Option Text
unfolding numbered_title member
first_free zero n base taken = none
first_free (suc fuel) n base taken =
    let rest = first_free fuel (suc n) base taken in
    if member (numbered_title base n) taken then rest else some (numbered_title base n)

abbrev pub title_base : Text → Text
title_base base = if length base == 0 then codes "Imported Session" else base

-- `nanos` is time.Now().UnixNano().
unfoldable pub resolve_title : ℕ → Text → List Text → Text
unfolding member first_free numbered_title
resolve_title nanos title existing =
    let base = title_base title in
    if not (member base existing)
    then base
    else if not (member (base ++ codes " (imported)") existing)
    then base ++ codes " (imported)"
    else elim (first_free 998 2 base existing) [ none ↦ numbered_title base nanos | some t ↦ t ]

-- The loop that allocates a session id; `millis` is nowUnixMilli at each attempt, and the listed
-- directories are those that exist.
unfoldable pub candidate_id : ℕ → ℕ → Text
unfolding decimal
candidate_id millis attempt =
    codes "sess-" ++ (decimal millis ++ (if attempt == 0 then [] else codes "-" ++ decimal attempt))

unfoldable pub allocate_id : ℕ → ℕ → (ℕ → ℕ) → List Text → Option Text
unfolding candidate_id member
allocate_id zero attempt millis existing = none
allocate_id (suc fuel) attempt millis existing =
    let candidate = candidate_id (millis attempt) attempt in
    let rest = allocate_id fuel (suc attempt) millis existing in
    if member candidate existing then rest else some candidate

abbrev pub max_attempts : ℕ
max_attempts = 5

unfoldable pub is_unsafe_rune : ℕ → Bool
is_unsafe_rune r =
    ltb r 0x20
    || r == b'/'
    || r == 0x5C
    || r == b':'
    || r == b'*'
    || r == b'?'
    || r == 0x22
    || r == b'<'
    || r == b'>'
    || r == b'|'

unfoldable pub replace_unsafe : List ℕ → List ℕ
unfolding is_unsafe_rune
replace_unsafe [] = []
replace_unsafe (r ∷ rs) = (if is_unsafe_rune r then b'_' else r) ∷ replace_unsafe rs

unfoldable pub sanitize_title : Text → Text
unfolding replace_unsafe runes encode trim_space
sanitize_title title =
    let out = encode (trim_space (replace_unsafe (runes title))) in
    if ltb 64 (length out) then take 64 out else out

-- `stamp` is the time in the layout 20060102-150405.
unfoldable pub safe_bundle_filename : Text → Text → Text → Text
unfolding sanitize_title
safe_bundle_filename title session_id stamp =
    let clean = sanitize_title title in
    (if length clean == 0 then codes "session-" ++ take 8 session_id else clean)
    ++ (codes "-" ++ (stamp ++ codes ".shellagent"))
