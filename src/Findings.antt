-- ===== src/Findings.antt =====
-- The findings of a session (app/internal/findings/findings.go). `p` holds the floating point
-- numbers and strings.ToLower; `is_letter_or_digit` is unicode.IsLetter or unicode.IsDigit; `Moment`
-- is what time.Now returns, in the layouts that the code asks for, and `random` what randomHex does.
pub mod Similar
pub mod Laws
use shell_agent_v.Base.{
  ℕ, zero, suc, ◌+◌, ◌-◌, Bool, true, false, ◌&&◌, ◌||◌, Option, none, some, List, [], ◌∷◌, ◌++◌,
  length, ltb, ◌==◌, if◌then◌else◌,
}
use shell_agent_v.Text.{Text, codes, member, ◌=ᵗ◌, has_prefix}
use shell_agent_v.Memory.Floats.{Platform}
use shell_agent_v.Memory.Prompt.{decimal, join_lines, sanitize_memory_text}
use shell_agent_v.Findings.Similar.{is_duplicate}

pub record Finding : Type 0 where
  pub id : Text
  pub content : Text
  pub tags : List Text
  pub created_at : Text
  pub created_label : Text
  pub source : Text
  pub tool_originated : Bool

-- A negative MaxFindings counts as 0.
pub record Store : Type 0 where
  pub findings : List Finding
  pub max_findings : ℕ

pub record Moment : Type 0 where
  pub day : Text
  pub stamp : Text
  pub date : Text
  pub weekday : Text

abbrev pub default_max_findings : ℕ
default_max_findings = 100

abbrev pub max_numbered : ℕ
max_numbered = 999

abbrev pub new_store : Store
new_store = record { findings = []; max_findings = default_max_findings }

unfoldable pub contents : List Finding → List Text
contents [] = []
contents (f ∷ fs) = f.content ∷ contents fs

unfoldable pub zeros : ℕ → Text
zeros zero = []
zeros (suc n) = 0x30 ∷ zeros n

-- %0<width>d
unfoldable pub padded : ℕ → ℕ → Text
unfolding zeros decimal
padded width n = zeros (width - length (decimal n)) ++ decimal n

unfoldable pub day_prefix : Text → Text
day_prefix day = codes "f-" ++ (day ++ codes "-")

unfoldable pub count_for_day : Text → List Finding → ℕ
unfolding day_prefix has_prefix
count_for_day day [] = 0
count_for_day day (f ∷ fs) =
    (if has_prefix f.id (day_prefix day) then 1 else 0) + count_for_day day fs

unfoldable pub finding_id : Text → Text → ℕ → Text
unfolding day_prefix padded
finding_id random day count =
    if ltb max_numbered count
    then day_prefix day ++ (padded 6 count ++ (codes "-" ++ random))
    else day_prefix day ++ padded 3 count

unfoldable pub capacity : Store → ℕ
capacity s = if s.max_findings == 0 then default_max_findings else s.max_findings

-- s.findings[1:] where there are more findings than the capacity.
unfoldable pub evict_oldest : ℕ → List Finding → List Finding
evict_oldest cap [] = []
evict_oldest cap (f ∷ fs) = if ltb cap (length (f ∷ fs)) then fs else f ∷ fs

unfoldable pub new_finding : Moment → Text → Text → List Text → Text → Bool → List Finding → Finding
unfolding finding_id count_for_day
new_finding now random content tags source tool_originated fs = record {
  id = finding_id random now.day (suc (count_for_day now.day fs));
  content = content;
  tags = tags;
  created_at = now.stamp;
  created_label = now.date ++ (codes " (" ++ (now.weekday ++ codes ")"));
  source = source;
  tool_originated = tool_originated;
}

unfoldable pub append_finding : Finding → Store → Store
unfolding capacity evict_oldest
append_finding f s = record s { findings = evict_oldest (capacity s) (s.findings ++ f ∷ []) }

unfoldable pub get : Text → List Finding → Option Finding
unfolding ◌=ᵗ◌
get id [] = none
get id (f ∷ fs) = if f.id =ᵗ id then some f else get id fs

-- The loop of DeleteByIDs: what is kept, and the number of the others.
unfoldable pub delete_from : List Text → List Finding → List Finding × ℕ
unfolding member
delete_from ids [] = ([], 0)
delete_from ids (f ∷ fs) =
    let (kept, deleted) = delete_from ids fs in
    if member f.id ids then (kept, suc deleted) else (f ∷ kept, deleted)

unfoldable pub delete_by_ids : List Text → Store → ℕ × Store
unfolding delete_from
delete_by_ids [] s = (0, s)
delete_by_ids (id ∷ ids) s =
    let (kept, deleted) = delete_from (id ∷ ids) s.findings in
    (deleted, record s { findings = kept })

unfoldable pub finding_lines : List Finding → List Text
unfolding sanitize_memory_text
finding_lines [] = []
finding_lines (f ∷ fs) =
    (codes "- [derived] ["
      ++ (f.created_label ++ (codes "] " ++ (sanitize_memory_text f.content 500 ++ codes "\n"))))
    ∷ finding_lines fs

unfoldable pub format_for_prompt : Store → Text
unfolding finding_lines join_lines
format_for_prompt s = join_lines (codes "findings") (finding_lines s.findings)

module _ {F : Type 0} (p : Platform F) (is_letter_or_digit : ℕ → Bool) where
  unfoldable pub add :
      Moment → Text → Text → List Text → Text → Bool → Store → Option Finding × Store
  unfolding is_duplicate contents new_finding append_finding
  add now random content tags source tool_originated s =
      let f = new_finding now random content tags source tool_originated s.findings in
      if is_duplicate p is_letter_or_digit content (contents s.findings)
      then (none, s)
      else (some f, append_finding f s)
