-- ===== src/Summarizer.antt =====
-- The analysis of rows by sliding windows (app/internal/analysis/summarizer.go). `lower` is
-- strings.ToLower, `wrap` is tag.Wrap, and `parse` is what jsonfix.Extract and json.Unmarshal make
-- of a response. `chat` answers the request of a window, and `cancelled` says whether the context
-- has ended before it. The wording of the system prompt is an argument.
pub mod Rows
pub mod Windows
pub mod Report
use shell_agent_v.Base.{
  ℕ, zero, suc, ◌+◌, ◌-◌, ◌*◌, ◌/◌, Bool, true, false, not, ◌&&◌, ◌||◌, Option, none, some, List,
  [], ◌∷◌, ◌++◌, length, take, drop, leb, ltb, ◌==◌, if◌then◌else◌, max, min,
}
use shell_agent_v.Text.{Text, codes, ◌=ᵗ◌, runes, encode, trim_space, concat}
use shell_agent_v.Memory.Floats.{Platform}
use shell_agent_v.Memory.Prompt.{decimal}
use shell_agent_v.TextTools.{trimmed, join_lines}

-- Negative numbers, on which the slicing panics, are left out.
pub record SummarizerConfig (F : Type 0) : Type 0 where
  pub max_records_per_window : ℕ
  pub overlap_ratio : F
  pub max_findings : ℕ

pub record Observation : Type 0 where
  pub description : Text
  pub severity : Text
  pub evidence : Text

pub record WindowResponse : Type 0 where
  pub summary : Text
  pub new_findings : List Observation

pub record AnalyzeResult : Type 0 where
  pub summary : Text
  pub findings : List Observation
  pub windows : ℕ

pub data Analysis : Type 0 where
  analyzed : AnalyzeResult → Analysis
  cancelled_before : ℕ → Analysis
  window_failed : ℕ → Analysis

pub data Severity : Type 0 where
  critical high medium low info : Severity

module _ (lower : Text → Text) where
  unfoldable pub normalize_severity : Text → Severity
  unfolding ◌=ᵗ◌ runes encode trim_space
  normalize_severity s =
      let t = lower (trimmed s) in
      if t =ᵗ codes "critical"
      then critical
      else if t =ᵗ codes "high"
      then high
      else if t =ᵗ codes "medium"
      then medium
      else if t =ᵗ codes "low"
      then low
      else info

  abbrev pub is_high : Severity → Bool
  is_high critical = true
  is_high high = true
  is_high medium = true
  is_high _ = false

  -- The observations of high priority, or the others, in their order.
  unfoldable pub by_priority : Bool → List Observation → List Observation
  unfolding normalize_severity
  by_priority wanted [] = []
  by_priority wanted (f ∷ fs) =
      let rest = by_priority wanted fs in
      let is_wanted =
        if wanted
        then is_high (normalize_severity f.severity)
        else not (is_high (normalize_severity f.severity)) in
      if is_wanted then f ∷ rest else rest

  -- The last n of a list, where there are more.
  abbrev pub newest : ℕ → List Observation → List Observation
  newest n fs = drop (length fs - n) fs

  unfoldable pub evict_findings : ℕ → List Observation → List Observation
  unfolding by_priority
  evict_findings max_findings fs =
      let important = by_priority true fs in
      let others = by_priority false fs in
      if leb (length fs) max_findings
      then fs
      else if ltb max_findings (length important)
      then newest max_findings important
      else important ++ newest (max_findings - length important) others

unfoldable pub current_findings : List Observation → Text
current_findings [] = []
current_findings (f ∷ fs) =
    codes "- ["
    ++ (f.severity ++ (codes "] " ++ (f.description ++ (codes "\n" ++ current_findings fs))))

unfoldable pub user_prompt : (Text → Option Text) → Text → List Observation → List Text → ℕ → Text
unfolding current_findings decimal join_lines
user_prompt wrap summary findings rows window =
    let body = join_lines rows in
    (if length summary == 0
      then []
      else codes "### Previous Summary\n" ++ (summary ++ codes "\n\n"))
    ++ ((if length findings == 0
          then []
          else codes "### Current Findings\n" ++ (current_findings findings ++ codes "\n"))
        ++ (codes "### New Data (Window "
            ++ (decimal (window + 1)
                ++ (codes ")\n" ++ elim (wrap body) [ some t ↦ t | none ↦ body ]))))

unfoldable pub parse_window_response : (Text → Option WindowResponse) → Text → WindowResponse
unfolding runes encode trim_space
parse_window_response parse resp = elim (parse (trimmed resp)) [
  | some wr ↦ wr
  | none ↦ record { summary = trimmed resp; new_findings = [] }
]

abbrev pub at_least_one : ℕ → ℕ
at_least_one n = if n == 0 then 1 else n

unfoldable pub step_of : {F : Type 0} → Platform F → SummarizerConfig F → ℕ
step_of p cfg =
    at_least_one (cfg.max_records_per_window - p.scale cfg.max_records_per_window cfg.overlap_ratio)

-- What the progress callback is told.
unfoldable pub total_windows : ℕ → ℕ → ℕ
total_windows step rows = (rows + step - 1) / step

unfoldable pub window_rows : ℕ → ℕ → List Text → List Text
window_rows offset size rows = drop offset (take (min (offset + size) (length rows)) rows)

pub record Llm : Type 0 where
  pub lower : Text → Text
  pub wrap : Text → Option Text
  pub parse : Text → Option WindowResponse
  pub chat : ℕ → Text → Text → Option Text
  pub cancelled : ℕ → Bool

-- The loop, from an offset and with what the windows before it have given. A window takes at least
-- one row, so that the number of rows is fuel enough.
unfoldable pub analyze_from : Llm → Text → ℕ → ℕ → ℕ → List Text → ℕ → ℕ → AnalyzeResult → Analysis
unfolding user_prompt parse_window_response evict_findings window_rows
analyze_from env system size step max_findings rows zero offset r = analyzed r
analyze_from env system size step max_findings rows (suc fuel) offset r =
    if leb (length rows) offset
    then analyzed r
    else if env.cancelled r.windows
    then cancelled_before r.windows
    else elim (env.chat r.windows system
        (user_prompt env.wrap r.summary r.findings (window_rows offset size rows) r.windows)) [
          | none ↦ window_failed r.windows
          | some resp ↦
              let wr = parse_window_response env.parse resp in
              analyze_from env system size step max_findings rows fuel (offset + step) (record {
                summary = wr.summary;
                findings = evict_findings env.lower max_findings (r.findings ++ wr.new_findings);
                windows = suc r.windows;
              })
        ]

unfoldable pub analyze :
    {F : Type 0} → Platform F → Llm → SummarizerConfig F → Text → List Text → Analysis
unfolding analyze_from step_of
analyze p env cfg system [] =
    analyzed (record { summary = codes "No data to analyze."; findings = []; windows = 0 })
analyze p env cfg system (row ∷ rows) =
    analyze_from env system cfg.max_records_per_window (step_of p cfg) cfg.max_findings (row ∷ rows)
      (length (row ∷ rows)) 0 (record { summary = []; findings = []; windows = 0 })
