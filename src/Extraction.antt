-- ===== src/Extraction.antt =====
-- The extraction of facts from a conversation (app/internal/agent/agent_extract.go,
-- app/internal/memory/extraction.go): the window of records, the lines of the reply. Attribution is
-- the search for the user turn that a fact comes from, Apply what the lines do to the stores.
pub mod Attribution
pub mod Apply
pub mod Gate
use shell_agent_v.Base.{
  ℕ, zero, suc, ◌+◌, Bool, true, false, not, ◌&&◌, ◌||◌, Option, none, some, List, [], ◌∷◌, ◌++◌,
  length, drop, ltb, leb, ◌==◌, if◌then◌else◌,
}
use shell_agent_v.Text.{Text, codes, ◌=ᵗ◌, member, has_prefix, contains, concat}
use shell_agent_v.Session.{Record}
use shell_agent_v.Memory.Prompt.{decimal}
use shell_agent_v.TextTools.{trimmed, ℤ, pos, negsuc, atoi}

abbrev pub is_tool : Record → Bool
is_tool r = r.role =ᵗ codes "tool"

-- A record with its index among the records of the session.
abbrev pub Indexed : Type 0
Indexed = ℕ × Record

unfoldable pub indexed : ℕ → List Record → List Indexed
indexed i [] = []
indexed i (r ∷ rs) = (i, r) ∷ indexed (suc i) rs

unfoldable pub reversed : List Indexed → List Indexed → List Indexed
reversed done [] = done
reversed done (r ∷ rs) = reversed (r ∷ done) rs

abbrev pub target_non_tool : ℕ
target_non_tool = 4

abbrev pub max_walk : ℕ
max_walk = 40

-- The walk backward: the records from the last on, with the window and the number of turns that are
-- no tool results so far.
unfoldable pub window_from : List Indexed → ℕ → List Indexed → List Indexed × ℕ
unfolding ◌=ᵗ◌
window_from hot non_tool [] = (hot, non_tool)
window_from hot non_tool (r ∷ rs) =
    let count = if is_tool r.1 then non_tool else suc non_tool in
    let rest = window_from (r ∷ hot) count rs in
    if leb max_walk (length hot)
    then (hot, non_tool)
    else if not (is_tool r.1) && leb target_non_tool count
    then (r ∷ hot, count)
    else rest

unfoldable pub hot_window : List Record → List Indexed × ℕ
unfolding indexed reversed window_from
hot_window records = window_from [] 0 (reversed [] (indexed 0 records))

unfoldable pub has_tool_neighbor : List Indexed → Bool
unfolding ◌=ᵗ◌
has_tool_neighbor [] = false
has_tool_neighbor (r ∷ rs) = is_tool r.1 || has_tool_neighbor rs

-- The records that get a turn number, the first of them 1.
unfoldable pub turns : List Indexed → List Indexed
unfolding ◌=ᵗ◌
turns [] = []
turns (r ∷ rs) = let rest = turns rs in if is_tool r.1 then rest else r ∷ rest

unfoldable pub conversation : ℕ → List Indexed → Text
unfolding decimal
conversation n [] = []
conversation n (r ∷ rs) =
    codes "[turn "
    ++ (decimal n
        ++ (codes "|"
            ++ (r.1.role
                ++ (codes "]: " ++ (r.1.content ++ (codes "\n" ++ conversation (suc n) rs))))))

unfoldable pub user_turn_count : List Record → ℕ
unfolding ◌=ᵗ◌
user_turn_count [] = 0
user_turn_count (r ∷ rs) = (if r.role =ᵗ codes "user" then 1 else 0) + user_turn_count rs

-- strings.SplitN(line, "|", n + 1)
unfoldable pub split_bars : ℕ → Text → List Text
split_bars n [] = [] ∷ []
split_bars zero (c ∷ s) = (c ∷ s) ∷ []
split_bars (suc n) (c ∷ s) =
    let rest = split_bars (if c == b'|' then n else suc n) s in
    if c == b'|' then [] ∷ rest else elim rest [ [] ↦ (c ∷ []) ∷ [] | l ∷ ls ↦ (c ∷ l) ∷ ls ]

abbrev pub is_letter_of : ℕ → ℕ → Bool
is_letter_of small c = c == small || c + 32 == small

abbrev pub is_separator : ℕ → Bool
is_separator c =
    c == 0x20 || c == 0x09 || c == 0x0A || c == 0x0C || c == 0x0D || c == b'-' || c == b'_'

unfoldable pub all_digits : Text → Bool
all_digits [] = true
all_digits (c ∷ s) = leb 0x30 c && leb c 0x39 && all_digits s

abbrev pub some_digits : Text → Bool
some_digits s = ltb 0 (length s) && all_digits s

abbrev pub number_part : Text → Bool
number_part [] = false
number_part (c ∷ s) = if is_separator c then some_digits s else some_digits (c ∷ s)

-- The pattern (?i)^turn[\s\-_]?\d+$
unfoldable pub matches_turn : Text → Bool
unfolding all_digits
matches_turn (t ∷ u ∷ r ∷ n ∷ s) =
    is_letter_of b't' t
    && is_letter_of b'u' u
    && is_letter_of b'r' r
    && is_letter_of b'n' n
    && number_part s
matches_turn _ = false

unfoldable pub looks_like_turn_token : Text → Bool
unfolding matches_turn
looks_like_turn_token s = matches_turn (trimmed s)

pub record Candidate : Type 0 where
  pub category : Text
  pub turn_token : Text
  pub fact : Text
  pub native : Text

abbrev pub with_fact : Candidate → Option Candidate
with_fact c = if length c.fact == 0 then none else some c

abbrev pub first_or_empty : List Text → Text
first_or_empty [] = []
first_or_empty (t ∷ ts) = trimmed t

abbrev pub candidate_of : List Text → Option Candidate
candidate_of (c ∷ t ∷ f ∷ rest) =
    if looks_like_turn_token (trimmed t)
    then with_fact (record {
      category = trimmed c;
      turn_token = trimmed t;
      fact = trimmed f;
      native = first_or_empty rest;
    })
    else with_fact
        (record { category = trimmed c; turn_token = []; fact = trimmed t; native = trimmed f })
candidate_of (c ∷ f ∷ []) =
    with_fact (record { category = trimmed c; turn_token = []; fact = trimmed f; native = [] })
candidate_of _ = none

unfoldable pub parse_extraction_line : Text → Option Candidate
unfolding split_bars
parse_extraction_line line = candidate_of (split_bars 3 line)

abbrev pub without_prefix : Text → Text → Text
without_prefix s p = if has_prefix s p then drop (length p) s else s

unfoldable pub parse_turn_token : Text → Option ℕ
unfolding has_prefix atoi
parse_turn_token tok =
    let bare =
      without_prefix (without_prefix (without_prefix (trimmed tok) (codes "turn-")) (codes "turn "))
        (codes "turn") in
    elim (atoi (trimmed bare)) [
      | none ↦ none
      | some (pos n) ↦ if n == 0 then none else some n
      | some (negsuc n) ↦ none
    ]

abbrev pub self_referential_patterns : List Text
self_referential_patterns =
    codes "the assistant"
    ∷ codes "the model"
    ∷ codes "the llm"
    ∷ codes "the ai"
    ∷ codes "system prompt"
    ∷ codes "internal thought"
    ∷ codes "internal reasoning"
    ∷ codes "<think>"
    ∷ codes "</think>"
    ∷ codes "tool call"
    ∷ codes "tool output"
    ∷ codes "shell-agent"
    ∷ []

abbrev pub structural_words : List Text
structural_words =
    codes "tag"
    ∷ codes "marker"
    ∷ codes "mark"
    ∷ codes "internal"
    ∷ codes "output"
    ∷ codes "show"
    ∷ codes "display"
    ∷ codes "leak"
    ∷ codes "emit"
    ∷ codes "reveal"
    ∷ codes "format"
    ∷ codes "token"
    ∷ []

unfoldable pub contains_one_of : Text → List Text → Bool
unfolding contains
contains_one_of s [] = false
contains_one_of s (p ∷ ps) = contains s p || contains_one_of s ps

abbrev pub is_word_byte : ℕ → Bool
is_word_byte c =
    leb b'a' c && leb c b'z' || leb b'A' c && leb c b'Z' || leb b'0' c && leb c b'9' || c == b'_'

abbrev pub starts_word : Text → Bool
starts_word [] = false
starts_word (c ∷ s) = is_word_byte c

-- The pattern (?i)\bthink\b on a lowered text; the flag says that a word byte stands before it.
unfoldable pub has_think : Bool → Text → Bool
unfolding has_prefix
has_think after_word [] = false
has_think after_word (c ∷ s) =
    not after_word && has_prefix (c ∷ s) (codes "think") && not (starts_word (drop 5 (c ∷ s)))
    || has_think (is_word_byte c) s

unfoldable pub is_self_referential : (Text → Text) → Text → Bool
unfolding contains_one_of has_think
is_self_referential lower fact =
    let low = lower fact in
    contains_one_of low self_referential_patterns
    || has_think false low && contains_one_of low structural_words
