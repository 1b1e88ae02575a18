-- ===== src/SessionIo/Archive.antt =====
-- The paths in a bundle (safeArchivePath in app/internal/sessionio/import.go, and path.Clean).
use shell_agent_v.Base.{Bool, not, ◌&&◌, ◌||◌, List, [], ◌∷◌, ◌++◌, length, ◌==◌, if◌then◌else◌}
use shell_agent_v.Text.{Text, codes, ◌=ᵗ◌, has_prefix, contains}
use shell_agent_v.Objects.Attach.{has_suffix}

-- The components of a path: what stands between its slashes.
unfoldable pub components : Text → List Text
components [] = [] ∷ []
components (c ∷ s) = elim (components s) [
  | [] ↦ (c ∷ []) ∷ []
  | p ∷ ps ↦ if c == b'/' then [] ∷ p ∷ ps else (c ∷ p) ∷ ps
]

abbrev pub is_dot_dot : Text → Bool
is_dot_dot c = c =ᵗ codes ".."

abbrev pub is_here : Text → Bool
is_here c = length c == 0 || c =ᵗ codes "."

-- What a component does to the components before it, the last of them first.
unfoldable pub back : List Text → List Text
back [] = codes ".." ∷ []
back (c ∷ out) = if is_dot_dot c then codes ".." ∷ c ∷ out else out

unfoldable pub clean_from : List Text → List Text → List Text
unfolding back
clean_from out [] = out
clean_from out (c ∷ cs) =
    clean_from (if is_here c then out else if is_dot_dot c then back out else c ∷ out) cs

-- The components joined by slashes, from the last to the first.
unfoldable pub join_back : List Text → Text
join_back [] = []
join_back (c ∷ []) = c
join_back (c ∷ d ∷ out) = join_back (d ∷ out) ++ (b'/' ∷ c)

-- path.Clean of a path that does not begin with a slash.
unfoldable pub clean : Text → Text
unfolding components clean_from join_back
clean path = elim (clean_from [] (components path)) [
  | [] ↦ codes "."
  | c ∷ out ↦ join_back (c ∷ out)
]

pub data PathCheck : Type 0 where
  safe empty_name unsafe_path : PathCheck

unfoldable pub safe_archive_path : Text → PathCheck
unfolding clean ◌=ᵗ◌ has_prefix contains has_suffix
safe_archive_path name =
    let cleaned = clean name in
    if length name == 0
    then empty_name
    else if has_prefix name (codes "/") || has_prefix name (0x5C ∷ [])
    then unsafe_path
    else if cleaned =ᵗ codes ".."
        || has_prefix cleaned (codes "../")
        || contains cleaned (codes "/../")
    then unsafe_path
    else if not (has_suffix name (codes "/")) && has_suffix cleaned (codes "/")
    then unsafe_path
    else safe
