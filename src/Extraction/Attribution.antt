-- ===== src/Extraction/Attribution.antt =====
-- The user turn that a fact comes from (matchFactToUserTurn and what it calls in
-- app/internal/agent/agent_extract.go), and the language hint of the summarizer. `lower` is
-- strings.ToLower.
use shell_agent_v.Base.{
  ℕ, suc, ◌+◌, ◌*◌, ◌/◌, Bool, false, not, ◌&&◌, ◌||◌, Option, none, some, List, [], ◌∷◌, ◌++◌,
  length, ltb, leb, if◌then◌else◌, min, max,
}
use shell_agent_v.Text.{Text, codes, ◌=ᵗ◌, member, contains, runes, encode}
use shell_agent_v.Session.{Record}
use shell_agent_v.Memory.Floats.{Platform}
use shell_agent_v.Extraction.{Indexed}

abbrev pub stop_words : List Text
stop_words =
    codes "user"
    ∷ codes "with"
    ∷ codes "from"
    ∷ codes "that"
    ∷ codes "this"
    ∷ codes "have"
    ∷ codes "they"
    ∷ codes "their"
    ∷ codes "about"
    ∷ codes "wants"
    ∷ codes "want"
    ∷ codes "would"
    ∷ codes "like"
    ∷ codes "uses"
    ∷ codes "using"
    ∷ codes "using."
    ∷ codes "prefer"
    ∷ codes "prefers"
    ∷ codes "preferred"
    ∷ []

abbrev pub is_ascii_alnum : ℕ → Bool
is_ascii_alnum r = leb b'a' r && leb r b'z' || leb b'A' r && leb r b'Z' || leb b'0' r && leb r b'9'

-- What the flush of extractKeywords appends for a run.
unfoldable pub keyword_of : (Text → Text) → Text → List Text
unfolding member
keyword_of lower run =
    let w = lower run in if ltb (length w) 4 || member w stop_words then [] else w ∷ []

unfoldable pub keywords_from : (Text → Text) → Text → List ℕ → List Text
unfolding keyword_of
keywords_from lower run [] = keyword_of lower run
keywords_from lower run (r ∷ rs) =
    let word = is_ascii_alnum r in
    (if word then [] else keyword_of lower run)
    ++ keywords_from lower (if word then run ++ r ∷ [] else []) rs

unfoldable pub extract_keywords : (Text → Text) → Text → List Text
unfolding keywords_from runes
extract_keywords lower s = keywords_from lower [] (runes s)

abbrev pub is_kanji : ℕ → Bool
is_kanji r = leb 0x4E00 r && leb r 0x9FFF

abbrev pub is_katakana : ℕ → Bool
is_katakana r = leb 0x30A0 r && leb r 0x30FF

abbrev pub is_hiragana : ℕ → Bool
is_hiragana r = leb 0x3040 r && leb r 0x309F

unfoldable pub trigrams : List ℕ → List Text
unfolding encode
trigrams (a ∷ b ∷ c ∷ rs) = encode (a ∷ b ∷ c ∷ []) ∷ trigrams (b ∷ c ∷ rs)
trigrams (a ∷ b ∷ []) = []
trigrams (a ∷ []) = []
trigrams [] = []

-- The flag is hasNonHira.
unfoldable pub ngrams_from : List ℕ → Bool → List ℕ → List Text
unfolding trigrams
ngrams_from run non_hira [] = if non_hira then trigrams run else []
ngrams_from run non_hira (r ∷ rs) =
    let inside = is_kanji r || is_katakana r || is_hiragana r in
    let rest =
      ngrams_from (if inside then run ++ r ∷ [] else [])
        (inside && (non_hira || not (is_hiragana r))) rs in
    (if not inside && non_hira then trigrams run else []) ++ rest

unfoldable pub extract_cjk_ngrams : Text → List Text
unfolding ngrams_from runes
extract_cjk_ngrams s = ngrams_from [] false (runes s)

unfoldable pub count_hits : Text → List Text → ℕ
unfolding contains
count_hits content [] = 0
count_hits content (k ∷ ks) = (if contains content k then 1 else 0) + count_hits content ks

abbrev pub required_hits : ℕ → ℕ
required_hits n = min n (max 2 (n * 30 / 100))

unfoldable pub match_channel : Text → List Text → Bool
unfolding count_hits
match_channel content [] = false
match_channel content (k ∷ ks) = leb (required_hits (length (k ∷ ks))) (count_hits content (k ∷ ks))

-- The loop over the window, with the keywords of the two channels.
unfoldable pub match_turn : (Text → Text) → List Text → List Text → List Indexed → Option ℕ
unfolding match_channel ◌=ᵗ◌
match_turn lower english cjk [] = none
match_turn lower english cjk (r ∷ rs) =
    let rest = match_turn lower english cjk rs in
    if r.1.role =ᵗ codes "user"
      && (match_channel (lower r.1.content) english || match_channel r.1.content cjk)
    then some r.0
    else rest

unfoldable pub match_fact_to_user_turn : (Text → Text) → Text → Text → List Indexed → Option ℕ
unfolding match_turn extract_keywords extract_cjk_ngrams
match_fact_to_user_turn lower fact native hot =
    match_turn lower (extract_keywords lower fact) (extract_cjk_ngrams native) hot

abbrev pub is_japanese : ℕ → Bool
is_japanese r = is_hiragana r || is_katakana r || leb 0x3400 r && leb r 0x4DBF || is_kanji r

-- The numbers of the Japanese runes and of all that count.
unfoldable pub count_japanese : List ℕ → ℕ × ℕ
count_japanese [] = (0, 0)
count_japanese (r ∷ rs) =
    let (cjk, total) = count_japanese rs in
    if is_ascii_alnum r
    then (cjk, suc total)
    else if is_japanese r
    then (suc cjk, suc total)
    else (cjk, total)

module _ {F : Type 0} (p : Platform F) where
  unfoldable pub has_significant_cjk : Text → Bool
  unfolding count_japanese runes
  has_significant_cjk s =
      let (cjk, total) = count_japanese (runes s) in
      if ltb total 3 then false else p.lt (p.ratio 3 10) (p.ratio cjk total)

  -- The records from the last on.
  unfoldable pub language_hint : List Record → Text
  unfolding has_significant_cjk ◌=ᵗ◌
  language_hint [] = []
  language_hint (r ∷ rs) =
      let rest = language_hint rs in
      if r.role =ᵗ codes "user"
      then (if has_significant_cjk r.content then codes "Japanese" else [])
      else rest
