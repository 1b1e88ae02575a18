-- ===== src/Findings/Similar.antt =====
-- Whether two findings describe the same observation (isDuplicateLocked and what it calls in
-- app/internal/findings/findings.go). A set of tokens is a list without repetitions.
use shell_agent_v.Base.{
  ℕ, ◌+◌, ◌-◌, Bool, true, false, not, ◌&&◌, ◌||◌, List, [], ◌∷◌, ◌++◌, length, leb, ◌==◌,
  if◌then◌else◌,
}
use shell_agent_v.Text.{Text, member, ◌=ᵗ◌, runes, encode, trim_space}
use shell_agent_v.Memory.Floats.{Platform}

unfoldable pub is_cjk : ℕ → Bool
is_cjk r =
    leb 0x3000 r && leb r 0x303F
    || leb 0x3040 r && leb r 0x309F
    || leb 0x30A0 r && leb r 0x30FF
    || leb 0x3400 r && leb r 0x4DBF
    || leb 0x4E00 r && leb r 0x9FFF
    || leb 0xFF00 r && leb r 0xFFEF

-- out[t] = struct{}{}
unfoldable pub insert : Text → List Text → List Text
unfolding member
insert t set = if member t set then set else set ++ t ∷ []

-- flushAscii
unfoldable pub flush_ascii : Text → List Text → List Text
unfolding insert
flush_ascii run set = if leb 3 (length run) then insert run set else set

-- flushCJK: every three runes that stand side by side.
unfoldable pub flush_cjk : List ℕ → List Text → List Text
unfolding insert encode
flush_cjk (a ∷ b ∷ c ∷ rs) set = flush_cjk (b ∷ c ∷ rs) (insert (encode (a ∷ b ∷ c ∷ [])) set)
flush_cjk (a ∷ b ∷ []) set = set
flush_cjk (a ∷ []) set = set
flush_cjk [] set = set

unfoldable pub is_ascii_word : ℕ → Bool
is_ascii_word r = leb 0x61 r && leb r 0x7A || leb 0x30 r && leb r 0x39

unfoldable pub tokens_from : Text → List ℕ → List Text → List ℕ → List Text
unfolding is_cjk is_ascii_word flush_ascii flush_cjk
tokens_from ascii cjk out [] = flush_cjk cjk (flush_ascii ascii out)
tokens_from ascii cjk out (r ∷ rs) =
    let word = is_ascii_word r in
    if is_cjk r
    then tokens_from [] (cjk ++ r ∷ []) (flush_ascii ascii out) rs
    else tokens_from (if word then ascii ++ r ∷ [] else []) []
        (flush_cjk cjk (if word then out else flush_ascii ascii out)) rs

-- The loop of jaccard over one of the sets.
unfoldable pub common : List Text → List Text → ℕ
unfolding member
common [] b = 0
common (t ∷ a) b = (if member t b then 1 else 0) + common a b

module _ {F : Type 0} (p : Platform F) (is_letter_or_digit : ℕ → Bool) where
  unfoldable pub tokenise : Text → List Text
  unfolding tokens_from runes
  tokenise s = tokens_from [] [] [] (runes (p.lower s))

  unfoldable pub jaccard : List Text → List Text → F
  unfolding common
  jaccard a b =
      let inter = common a b in
      let union = length a + length b - inter in
      if length a == 0 || length b == 0 || union == 0 then p.ratio 0 1 else p.ratio inter union

  -- The loop of normaliseFindingText; the flag is prevSpace.
  unfoldable pub normalise_from : Bool → List ℕ → List ℕ
  normalise_from prev_space [] = []
  normalise_from prev_space (r ∷ rs) =
      let word = is_letter_or_digit r in
      let rest = normalise_from (not word) rs in
      if word then r ∷ rest else if prev_space then rest else 0x20 ∷ rest

  unfoldable pub normalise : Text → List ℕ
  unfolding normalise_from runes trim_space
  normalise s = trim_space (normalise_from true (runes (p.lower s)))

  unfoldable pub is_same : Text → Text → Bool
  unfolding normalise tokenise jaccard ◌=ᵗ◌
  is_same content existing =
      existing =ᵗ content
      || normalise existing =ᵗ normalise content
      || p.le (p.ratio 1 2) (jaccard (tokenise content) (tokenise existing))

  unfoldable pub is_same_as_any : Text → List Text → Bool
  unfolding is_same
  is_same_as_any content [] = false
  is_same_as_any content (e ∷ es) = is_same content e || is_same_as_any content es

  unfoldable pub is_duplicate : Text → List Text → Bool
  unfolding is_same_as_any trim_space runes
  is_duplicate content es =
      if length (trim_space (runes content)) == 0 then false else is_same_as_any content es
