-- ===== src/SessionIo/Rewrite.antt =====
-- The new object ids in the texts of a session (app/internal/sessionio/rewriter.go). The pattern
-- \b(object:)?([a-f0-9]{32}|[a-f0-9]{12})\b is matched at one place after another, from the left.
use shell_agent_v.Base.{
  ℕ, zero, suc, ◌+◌, ◌-◌, Bool, true, false, not, ◌&&◌, ◌||◌, Option, none, some, List, [], ◌∷◌,
  ◌++◌, length, take, drop, map, leb, ◌==◌, if◌then◌else◌,
}
use shell_agent_v.Text.{Text, codes, has_prefix}
use shell_agent_v.Dict.{Dict, find}
use shell_agent_v.Session.{Record}
use shell_agent_v.Context.Cache.{SummaryEntry}

unfoldable pub is_hex : ℕ → Bool
is_hex c = leb b'a' c && leb c b'f' || leb b'0' c && leb c b'9'

-- \w
unfoldable pub is_word_byte : ℕ → Bool
is_word_byte c =
    leb b'a' c && leb c b'z' || leb b'A' c && leb c b'Z' || leb b'0' c && leb c b'9' || c == b'_'

unfoldable pub all_hex : Text → Bool
unfolding is_hex
all_hex [] = true
all_hex (c ∷ s) = is_hex c && all_hex s

abbrev pub starts_word : Text → Bool
starts_word [] = false
starts_word (c ∷ s) = is_word_byte c

-- So many hex digits, and a word boundary behind them.
unfoldable pub is_id_at : ℕ → Text → Bool
unfolding all_hex is_word_byte
is_id_at n s = leb n (length s) && all_hex (take n s) && not (starts_word (drop n s))

unfoldable pub id_length : Text → Option ℕ
unfolding is_id_at
id_length s = if is_id_at 32 s then some 32 else if is_id_at 12 s then some 12 else none

-- A match at the head of a text whose last byte before it is a word byte or not: the lengths of the
-- prefix and of the id.
unfoldable pub match_at : Bool → Text → Option (ℕ × ℕ)
unfolding id_length has_prefix is_word_byte
match_at after_word s =
    if after_word || not (starts_word s)
    then none
    else elim (if has_prefix s (codes "object:") then id_length (drop 7 s) else none) [
      | some n ↦ some (7, n)
      | none ↦ elim (id_length s) [ some n ↦ some (0, n) | none ↦ none ]
    ]

-- What the function that ReplaceAllStringFunc calls makes of a match, or the byte where none begins.
unfoldable pub replaced : Dict Text → Option (ℕ × ℕ) → ℕ → Text → Text
unfolding find
replaced ids none c s = c ∷ []
replaced ids (some m) c s = elim (find (take m.1 (drop m.0 (c ∷ s))) ids) [
  | none ↦ take (m.0 + m.1) (c ∷ s)
  | some new ↦ take m.0 (c ∷ s) ++ new
]

-- The bytes of a match after its first.
abbrev pub bytes_left : Option (ℕ × ℕ) → ℕ
bytes_left none = 0
bytes_left (some m) = m.0 + m.1 - 1

-- The first argument counts the bytes that still belong to the match before.
unfoldable pub rewrite_from : Dict Text → ℕ → Bool → Text → Text
unfolding match_at replaced is_word_byte
rewrite_from ids skip after_word [] = []
rewrite_from ids (suc skip) after_word (c ∷ s) = rewrite_from ids skip (is_word_byte c) s
rewrite_from ids zero after_word (c ∷ s) =
    let matched = match_at after_word (c ∷ s) in
    replaced ids matched c s ++ rewrite_from ids (bytes_left matched) (is_word_byte c) s

unfoldable pub rewrite_text : Dict Text → Text → Text
unfolding rewrite_from
rewrite_text [] s = s
rewrite_text (e ∷ ids) s = rewrite_from (e ∷ ids) 0 false s

unfoldable pub new_id : Dict Text → Text → Text
unfolding find
new_id ids old = elim (find old ids) [ none ↦ old | some new ↦ new ]

-- RewriteRecords and RewriteSummaries, whose bodies an empty map leaves out.
unfoldable pub rewrite_record : Dict Text → Record → Record
unfolding new_id rewrite_text
rewrite_record ids r = record r {
  object_ids = map (new_id ids) r.object_ids;
  content = rewrite_text ids r.content;
}

unfoldable pub rewrite_records : Dict Text → List Record → List Record
unfolding rewrite_record
rewrite_records [] rs = rs
rewrite_records (e ∷ ids) rs = map (rewrite_record (e ∷ ids)) rs

unfoldable pub rewrite_summary : Dict Text → SummaryEntry → SummaryEntry
unfolding rewrite_text
rewrite_summary ids e = record e { summary = rewrite_text ids e.summary }

unfoldable pub rewrite_summaries : Dict Text → List SummaryEntry → List SummaryEntry
unfolding rewrite_summary
rewrite_summaries [] es = es
rewrite_summaries (e ∷ ids) es = map (rewrite_summary (e ∷ ids)) es
