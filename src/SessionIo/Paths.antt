-- ===== src/SessionIo/Paths.antt =====
-- Where the paths that safeArchivePath admits lead (app/internal/sessionio/import.go).
use shell_agent_v.Base.{
  ◌≡◌, refl, sym, ap, ◌∙◌, Bool, true, false, ◌||◌, List, [], ◌∷◌, ◌++◌, drop, if◌then◌else◌, All,
  arith, inl, inr, Bool-cases,
}
use shell_agent_v.Text.{Text, codes, ◌=ᵗ◌, has_prefix}
use shell_agent_v.Text.Laws.{text_eq→eq}
use shell_agent_v.SessionIo.Archive.{
  components, is_dot_dot, is_here, back, clean_from, join_back, clean, safe_archive_path, safe,
}

-- The directory that a path leads to from another one, the innermost name first: `..` leads to the
-- directory around, an empty component and `.` stay.
unfoldable pub lands : List Text → List Text → List Text
lands dir [] = dir
lands dir (c ∷ cs) =
    lands (if is_here c then dir else if is_dot_dot c then drop 1 dir else c ∷ dir) cs

-- Whether the first of the components, which are listed from the last to the first, is `..`.
bottom_up : List Text → Bool
bottom_up [] = false
bottom_up (c ∷ []) = is_dot_dot c
bottom_up (c ∷ d ∷ out) = bottom_up (d ∷ out)

bottom_up-cons : (c : Text) (out : List Text) → bottom_up out ≡ true → bottom_up (c ∷ out) ≡ true
unfolding bottom_up
bottom_up-cons c [] h = ground (arith, h)
bottom_up-cons c (d ∷ out) h = h

bottom_up-back : (out : List Text) → bottom_up out ≡ true → bottom_up (back out) ≡ true
unfolding bottom_up back
bottom_up-back [] h = ground (arith, h)
bottom_up-back (c ∷ []) h = rw h (rw h refl)
bottom_up-back (c ∷ d ∷ out) h = elim (Bool-cases (is_dot_dot c)) [
  | inl e ↦ rw e h
  | inr e ↦ rw e h
]

bottom_up-clean_from :
    (out cs : List Text) → bottom_up out ≡ true → bottom_up (clean_from out cs) ≡ true
unfolding clean_from
bottom_up-clean_from out [] h = h
bottom_up-clean_from out (c ∷ cs) h = elim (Bool-cases (is_here c)) [
  | inl e ↦ rw e (bottom_up-clean_from out cs h)
  | inr e ↦ elim (Bool-cases (is_dot_dot c)) [
    | inl q ↦ rw (e, q) (bottom_up-clean_from (back out) cs (bottom_up-back out h))
    | inr q ↦ rw (e, q) (bottom_up-clean_from (c ∷ out) cs (bottom_up-cons c out h))
  ]
]

-- One step up that does not leave the directory where the walk began.
back_inside :
    (out cs dir : List Text)
    → All (λ c. is_dot_dot c ≡ false) out
    → bottom_up (clean_from (back out) cs) ≡ false
    → (rest : List Text) × (back out ≡ rest)
      × (drop 1 (out ++ dir) ≡ rest ++ dir)
      × All (λ c. is_dot_dot c ≡ false) rest
unfolding back bottom_up ◌=ᵗ◌
back_inside [] cs dir h k =
    let up = bottom_up-clean_from (codes ".." ∷ []) cs refl in ground (arith, k, up)
back_inside (c ∷ out) cs dir (q, h) k = (out, rw q refl, refl, h)

-- A walk that does not end above where it began follows the cleaned path.
lands-clean_from :
    (out cs dir : List Text)
    → All (λ c. is_dot_dot c ≡ false) out
    → bottom_up (clean_from out cs) ≡ false
    → lands (out ++ dir) cs ≡ clean_from out cs ++ dir
unfolding lands clean_from
lands-clean_from out [] dir h k = refl
lands-clean_from out (c ∷ cs) dir h k = elim (Bool-cases (is_here c)) [
  | inl e ↦ rw e (lands-clean_from out cs dir h (ground (arith, e, k)))
  | inr e ↦ elim (Bool-cases (is_dot_dot c)) [
    | inr q ↦ rw (e, q) (lands-clean_from (c ∷ out) cs dir (q, h) (ground (arith, e, q, k)))
    | inl q ↦
        let up : (bottom_up (clean_from (back out) cs) ≡ false) = ground (arith, e, q, k) in
        let (rest, a, b, g) = back_inside out cs dir h up in
        rw (e, q, a, b)
          (lands-clean_from rest cs dir g (ap (λ o. bottom_up (clean_from o cs)) (sym a) ∙ up))
  ]
]

-- The test of the code: whether a cleaned path is `..` or begins with `../`.
leads_up : Text → Bool
leads_up t = t =ᵗ codes ".." || has_prefix t (codes "../")

has_prefix-more : (t p u : Text) → has_prefix t p ≡ true → has_prefix (t ++ u) p ≡ true
unfolding has_prefix
has_prefix-more t [] u h = refl
has_prefix-more [] (c ∷ p) u h = ground (arith, h)
has_prefix-more (d ∷ t) (c ∷ p) u h = ground (arith, h, has_prefix-more t p u)

leads_up-more : (t u : Text) → leads_up t ≡ true → leads_up (t ++ b'/' ∷ u) ≡ true
unfolding leads_up
leads_up-more t u h = elim (Bool-cases (t =ᵗ codes "..")) [
  | inl e ↦ rw (text_eq→eq t (codes "..") e) (unfold has_prefix ◌=ᵗ◌ in refl)
  | inr e ↦
      let longer = has_prefix-more t (codes "../") (b'/' ∷ u) (ground (arith, e, h)) in
      ground (arith, longer)
]

bottom_up-join_back : (out : List Text) → bottom_up out ≡ true → leads_up (join_back out) ≡ true
unfolding bottom_up join_back leads_up
bottom_up-join_back [] h = ground (arith, h)
bottom_up-join_back (c ∷ []) h = ground (arith, h)
bottom_up-join_back (c ∷ d ∷ out) h =
    leads_up-more (join_back (d ∷ out)) c (bottom_up-join_back (d ∷ out) h)

bottom_up-joined :
    (out : List Text)
    → leads_up (elim out [ [] ↦ codes "." | c ∷ o ↦ join_back (c ∷ o) ]) ≡ false
    → bottom_up out ≡ false
unfolding bottom_up
bottom_up-joined [] h = refl
bottom_up-joined (c ∷ o) h = elim (Bool-cases (bottom_up (c ∷ o))) [
  | inl e ↦ let up = bottom_up-join_back (c ∷ o) e in ground (arith, up, h)
  | inr e ↦ e
]

bottom_up-clean :
    (path : Text)
    → leads_up (clean path) ≡ false
    → bottom_up (clean_from [] (components path)) ≡ false
unfolding clean
bottom_up-clean path h = bottom_up-joined (clean_from [] (components path)) h

safe_archive_path-leads_up :
    (name : Text) → safe_archive_path name ≡ safe → leads_up (clean name) ≡ false
unfolding safe_archive_path leads_up
safe_archive_path-leads_up name h = ground (arith, h)

-- A name that safeArchivePath admits leads, from any directory, to that directory or to a place
-- under it: the names on the way there come before those of the directory.
pub safe_archive_path-inside :
    (name : Text) (dir : List Text)
    → safe_archive_path name ≡ safe
    → (rest : List Text) × (lands dir (components name) ≡ rest ++ dir)
safe_archive_path-inside name dir h =
    let e = bottom_up-clean name (safe_archive_path-leads_up name h) in
    (clean_from [] (components name), lands-clean_from [] (components name) dir tt e)
