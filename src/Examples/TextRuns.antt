-- ===== src/Examples/TextRuns.antt =====
-- A document of three lines (app/internal/agent/text_tools.go).
use shell_agent_v.Base.{ℕ, ◌+◌, ◌-◌, ◌≡◌, ◌≤◌, refl, none, some, [], ◌∷◌, length}
use shell_agent_v.Text.{Text, codes, contains}
use shell_agent_v.Objects.{ObjectMeta, Store, markdown}
use shell_agent_v.TextTools.{
  parse_line_range, get_text, resolve_text_object, grep_text, count_lines, slice_by_lines, ok,
  error, too_many_matches, max_lines, bad_range,
}
use shell_agent_v.TextTools.Ranges.{get_text-fits}

abbrev note : ObjectMeta
note = record {
  id = codes "aa";
  object_type = markdown;
  mime_type = codes "text/markdown";
  orig_name = codes "a.md";
  created_at = 7;
  session_id = codes "s1";
  size = 13;
  lines = 3;
  tokens = 3;
}

abbrev library : Store
library = record {
  index = (codes "aa", note) ∷ [];
  files = (codes "aa", codes "one\ntwo\nthree") ∷ [];
  saved = none;
}

from_two_on : parse_line_range (codes " 2 - 9") 3 ≡ ok (2, 3)
unfolding parse_line_range
from_two_on = refl

abbrev three : ℕ
three = 3

rejects_twice_a_hyphen : parse_line_range (codes "2-3-4") 3 ≡ error bad_range
unfolding parse_line_range
rejects_twice_a_hyphen = refl

abbrev two_lines : Text
two_lines = codes "2: two\n3: three\n"

reads_two : get_text (some library) (codes "object:aa") (codes "2-") ≡ ok (some two_lines)
unfolding get_text
reads_two = refl

two_lines_fit :
    (found : ObjectMeta × Text) × (start end : ℕ) × (t : Text) × (resolve_text_object
        (some library)
        (codes "object:aa")
      ≡ ok found)
    × (parse_line_range (codes "2-") (count_lines found.1) ≡ ok (start, end))
    × (some two_lines ≡ some t)
    × (length t ≤ 10043)
    × (end + 1 - start ≤ max_lines)
two_lines_fit =
    get_text-fits (some library) (codes "object:aa") (codes "2-") (some two_lines) reads_two

finds_two :
    grep_text (λ p. some (λ l. contains l p)) (some library) (codes "aa") (codes "tw") [] 0 1
    ≡ ok (some (codes "1 match(es) for /tw/:\n\n1: one\n2> two\n3: three\n"))
unfolding grep_text contains
finds_two = refl

-- Each of two lines matches.
too_many :
    grep_text (λ p. some (λ l. contains l p)) (some library) (codes "aa") (codes "t") [] 1 0
    ≡ error (too_many_matches 1)
unfolding grep_text contains
too_many = refl

last_two : slice_by_lines (codes "one\ntwo\nthree") 2 9 ≡ codes "two\nthree"
unfolding slice_by_lines
last_two = refl
