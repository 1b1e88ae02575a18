-- ===== src/TextTools.antt =====
-- The tools on text documents (app/internal/agent/text_tools.go): the look-up of the document, the
-- range of lines, grep-text and get-text. `max_int` is the largest int.
pub mod Ranges
use shell_agent_v.Base.{
  ℕ, zero, suc, ◌+◌, ◌-◌, ◌*◌, Bool, true, false, not, ◌&&◌, ◌||◌, Option, none, some, List, [],
  ◌∷◌, ◌++◌, length, take, drop, leb, ltb, ◌==◌, if◌then◌else◌, max, min, get_elem?,
}
use shell_agent_v.Text.{Text, codes, has_prefix, runes, encode, trim_space}
use shell_agent_v.Dict.{find}
use shell_agent_v.Chunker.{split_lines}
use shell_agent_v.Memory.Prompt.{decimal}
use shell_agent_v.Objects.{ObjectMeta, ObjectType, markdown, report, Store, get, count_breaks}

pub data ℤ : Type 0 where
  pos negsuc : ℕ → ℤ

-- The minus of a number.
abbrev pub neg : ℕ → ℤ
neg zero = pos 0
neg (suc n) = negsuc n

pub data ToolError : Type 0 where
  no_store no_object_id object_not_found not_text not_readable : ToolError
  empty_document bad_range : ToolError
  empty_range : ℕ → ℤ → ToolError
  no_lines no_pattern bad_pattern : ToolError
  too_many_matches too_many_lines : ℕ → ToolError

pub data Answer (A : Type 0) : Type 0 where
  ok : A → Answer A
  error : ToolError → Answer A

infixl 5 ◌>>=◌
abbrev pub ◌>>=◌ : {A B : Type 0} → Answer A → (A → Answer B) → Answer B
ok a >>= f = f a
error e >>= f = error e

abbrev pub trimmed : Text → Text
trimmed s = encode (trim_space (runes s))

abbrev pub is_text_object : ObjectType → Bool
is_text_object markdown = true
is_text_object report = true
is_text_object _ = false

abbrev pub required : {A : Type 0} → ToolError → Option A → Answer A
required e none = error e
required e (some a) = ok a

unfoldable pub resolve_text_object : Option Store → Text → Answer (ObjectMeta × Text)
unfolding has_prefix runes encode trim_space get find
resolve_text_object none arg = error no_store
resolve_text_object (some s) arg = do
  let id = trimmed (if has_prefix arg (codes "object:") then drop 7 arg else arg)
  present ← (if length id == 0 then error no_object_id else ok id)
  meta ← required object_not_found (get present s)
  allowed ← (if is_text_object meta.object_type then ok meta else error not_text)
  content ← required not_readable (find present s.files)
  ok (allowed, content)

unfoldable pub digits_from : ℕ → Text → Option ℕ
digits_from n [] = some n
digits_from n (c ∷ s) =
    let rest = digits_from (n * 10 + (c - 0x30)) s in
    if leb 0x30 c && leb c 0x39 then rest else none

abbrev pub max_int : ℕ
max_int = 9223372036854775807

unfoldable pub digits : Text → Option ℕ
unfolding digits_from
digits [] = none
digits (c ∷ s) = digits_from 0 (c ∷ s)

-- strconv.Atoi
unfoldable pub atoi : Text → Option ℤ
unfolding digits
atoi [] = none
atoi (c ∷ s) = elim (if c == b'-' || c == b'+' then digits s else digits (c ∷ s)) [
  | none ↦ none
  | some n ↦
      if c == b'-'
      then (if leb n (suc max_int) then some (neg n) else none)
      else if leb n max_int
      then some (pos n)
      else none
]

-- The text before the first hyphen and the text after it.
unfoldable pub split_hyphen : Text → Option (Text × Text)
split_hyphen [] = none
split_hyphen (c ∷ s) =
    let rest = split_hyphen s in
    if c == b'-' then some ([], s) else elim rest [ none ↦ none | some r ↦ some (c ∷ r.0, r.1) ]

abbrev pub or_bad : Option ℤ → Answer ℤ
or_bad none = error bad_range
or_bad (some n) = ok n

-- The two ends that a range which is not empty asks for.
unfoldable pub range_ends : Text → ℕ → Answer (ℤ × ℤ)
unfolding split_hyphen atoi runes encode trim_space
range_ends s total = elim (split_hyphen s) [
  | none ↦ (do n ← or_bad (atoi s); ok (n, n))
  | some halves ↦
      let left = trimmed halves.0 in
      let right = trimmed halves.1 in
      if length left == 0 && length right == 0
      then ok (pos 1, pos total)
      else if length left == 0
      then (do n ← or_bad (atoi right); ok (pos 1, n))
      else if length right == 0
      then (do n ← or_bad (atoi left); ok (n, pos total))
      else (do l ← or_bad (atoi left); r ← or_bad (atoi right); ok (l, r))
]

abbrev pub at_least_one : ℤ → ℕ
at_least_one (pos zero) = 1
at_least_one (pos (suc n)) = suc n
at_least_one (negsuc n) = 1

abbrev pub at_most : ℕ → ℤ → ℤ
at_most total (pos n) = pos (min n total)
at_most total (negsuc n) = negsuc n

-- The clamping, and the test whether anything is left.
unfoldable pub clamp : ℕ → ℤ × ℤ → Answer (ℕ × ℕ)
clamp total (start, end) = elim (at_most total end) [
  | negsuc n ↦ error (empty_range (at_least_one start) (negsuc n))
  | pos last ↦
      if ltb last (at_least_one start)
      then error (empty_range (at_least_one start) (pos last))
      else ok (at_least_one start, last)
]

unfoldable pub parse_line_range : Text → ℕ → Answer (ℕ × ℕ)
unfolding range_ends clamp runes encode trim_space
parse_line_range s total =
    if length (trimmed s) == 0
    then ok (1, total)
    else if total == 0
    then error empty_document
    else (do ends ← range_ends (trimmed s) total; clamp total ends)

unfoldable pub count_lines : Text → ℕ
unfolding count_breaks
count_lines [] = 0
count_lines (c ∷ s) = suc (count_breaks (c ∷ s))

-- strings.Join with line breaks.
unfoldable pub join_lines : List Text → Text
join_lines [] = []
join_lines (l ∷ []) = l
join_lines (l ∷ m ∷ ls) = l ++ (0x0A ∷ join_lines (m ∷ ls))

-- lines[start - 1 : end]
abbrev pub slice : {A : Type 0} → ℕ → ℕ → List A → List A
slice start end lines = drop (start - 1) (take end lines)

unfoldable pub slice_by_lines : Text → ℕ → ℕ → Text
unfolding split_lines join_lines
slice_by_lines content start end =
    let lines = split_lines content in
    let first = max 1 start in
    let last = min end (length lines) in
    if ltb last first then [] else join_lines (slice first last lines)

abbrev pub output_cap : ℕ
output_cap = 10000

unfoldable pub cap_output : Text → Text → Text
cap_output note out =
    if ltb output_cap (length out) then take output_cap out ++ (codes "\n\n... " ++ note) else out

-- The line at an index, where indexing past the end is `none`: it would panic.
abbrev pub line_at : List Text → ℕ → Option Text
line_at lines n = get_elem? lines n

-- The loop of get-text: from the line `ln`, as many as the first argument says.
unfoldable pub number_lines : ℕ → ℕ → List Text → Option Text
unfolding decimal
number_lines zero ln lines = some []
number_lines (suc n) ln lines =
    let rest = number_lines n (suc ln) lines in
    elim (line_at lines (ln - 1)) [
      | none ↦ none
      | some l ↦ elim rest [
        | none ↦ none
        | some r ↦ some (decimal ln ++ (codes ": " ++ (l ++ (codes "\n" ++ r))))
      ]
    ]

abbrev pub max_lines : ℕ
max_lines = 1000

-- get-text from its range on. An inner `none` is an index out of range.
unfoldable pub show_range : Text → ℕ × ℕ → Answer (Option Text)
unfolding number_lines cap_output split_lines
show_range content (start, end) =
    let count = end + 1 - start in
    let lines = split_lines content in
    if ltb max_lines count
    then error (too_many_lines count)
    else ok (elim (number_lines (min end (length lines) + 1 - start) start lines) [
      | none ↦ none
      | some out ↦ some (cap_output (codes "(truncated; request a narrower range)") out)
    ])

unfoldable pub read_range : Text → ObjectMeta × Text → Answer (Option Text)
unfolding count_lines parse_line_range show_range
read_range lines (meta, content) = do
  range ← parse_line_range lines (count_lines content)
  show_range content range

-- get-text after its arguments have been parsed.
unfoldable pub get_text : Option Store → Text → Text → Answer (Option Text)
unfolding resolve_text_object read_range
get_text objects object lines = do
  asked ← (if length lines == 0 then error no_lines else ok lines)
  found ← resolve_text_object objects object
  read_range asked found

-- The loop of grep-text over the lines of the range, with the number of the next line and of the
-- hits before it; the answer lists the numbers of the lines that match.
unfoldable pub grep_hits : (Text → Bool) → ℕ → ℕ → ℕ → List Text → Answer (List ℕ)
grep_hits matches max_matches found ln [] = ok []
grep_hits matches max_matches found ln (l ∷ ls) =
    let hit = matches l in
    let rest = grep_hits matches max_matches (if hit then suc found else found) (suc ln) ls in
    if hit && ltb max_matches (suc found)
    then error (too_many_matches max_matches)
    else elim rest [ error e ↦ error e | ok hits ↦ ok (if hit then ln ∷ hits else hits) ]

-- The lines around a hit, each with its marker: as many as the first argument says, from `ln`.
unfoldable pub context_of : ℕ → ℕ → ℕ → List Text → Option Text
unfolding decimal
context_of zero ln hit lines = some []
context_of (suc n) ln hit lines =
    let rest = context_of n (suc ln) hit lines in
    elim (line_at lines (ln - 1)) [
      | none ↦ none
      | some l ↦ elim rest [
        | none ↦ none
        | some r ↦ some (
            decimal ln
            ++ ((if ln == hit then codes "> " else codes ": ") ++ (l ++ (codes "\n" ++ r))))
      ]
    ]

unfoldable pub show_hits : Bool → ℕ → List Text → List ℕ → Option Text
unfolding context_of
show_hits is_first context_lines lines [] = some []
show_hits is_first context_lines lines (hit ∷ hits) =
    let rest = show_hits false context_lines lines hits in
    let from = max 1 (hit - context_lines) in
    elim (context_of (min (length lines) (hit + context_lines) + 1 - from) from hit lines) [
      | none ↦ none
      | some text ↦ elim rest [
        | none ↦ none
        | some r ↦ some ((if is_first then [] else codes "--\n") ++ (text ++ r))
      ]
    ]

abbrev pub default_matches : ℕ
default_matches = 200

abbrev pub default_context : ℕ
default_context = 2

unfoldable pub no_matches_text : Text → ℕ × ℕ → Text
unfolding decimal
no_matches_text pattern (start, end) =
    codes "(no matches for /"
    ++ (pattern
        ++ (codes "/ in lines " ++ (decimal start ++ (codes "-" ++ (decimal end ++ codes ")")))))

unfoldable pub hits_header : ℕ → Text → Text
unfolding decimal
hits_header n pattern = decimal n ++ (codes " match(es) for /" ++ (pattern ++ codes "/:\n\n"))

unfoldable pub show_matches : Text → ℕ → ℕ × ℕ → List Text → List ℕ → Option Text
unfolding show_hits cap_output no_matches_text hits_header
show_matches pattern context_lines range lines [] = some (no_matches_text pattern range)
show_matches pattern context_lines range lines (hit ∷ hits) =
    elim (show_hits true context_lines lines (hit ∷ hits)) [
      | none ↦ none
      | some text ↦ some (
          cap_output (codes "(truncated; raise context_lines selectivity or narrow the pattern)")
            (hits_header (length (hit ∷ hits)) pattern ++ text))
    ]

-- grep-text after its arguments have been parsed: `compile` is regexp.Compile with MatchString, and
-- a negative number counts as 0, which the code treats alike.
unfoldable pub grep_text :
    (Text → Option (Text → Bool)) → Option Store → Text → Text → Text → ℕ → ℕ → Answer (Option Text)
unfolding resolve_text_object count_lines parse_line_range grep_hits show_matches split_lines
grep_text compile objects object pattern lines max_matches context_lines = do
  asked ← (if length pattern == 0 then error no_pattern else ok pattern)
  matches ← required bad_pattern (compile asked)
  found ← resolve_text_object objects object
  range ← parse_line_range lines (count_lines found.1)
  let all = split_lines found.1
  let last = min range.1 (length all)
  hits ←
      grep_hits matches (if max_matches == 0 then default_matches else max_matches) 0 range.0
        (slice range.0 last all)
  ok (
      show_matches pattern (if context_lines == 0 then default_context else context_lines)
        (range.0, last) all hits)
