-- ===== src/Examples/ContextRuns.antt =====
-- A context of two short records (app/internal/contextbuild).
use shell_agent_v.Base.{
  ℕ, ◌≡◌, refl, true, false, ◌&&◌, Option, none, some, List, [], ◌∷◌, ◌++◌, length, ltb, arith,
}
use shell_agent_v.Text.{Text, codes, ◌=ᵗ◌}
use shell_agent_v.Session.{Record, Session, plain}
use shell_agent_v.Memory.Lifecycle.{is_nil}
use shell_agent_v.Context.Render.{BuildOptions}
use shell_agent_v.Context.Cache.{SummaryEntry, SummaryCache, kind_content_v2, get, put, stamped}
use shell_agent_v.Context.Budget.{get-put}
use shell_agent_v.Context.RawWindow.{Window, walk, is_over, select, is_raw, is_legacy}
use shell_agent_v.Context.Build.{BuildResult, build, resolve_defaults, tokens_of}
use shell_agent_v.Context.Build.Kept.{last_or, AllShown, walk_budget}
use shell_agent_v.Context.Build.Conserve.{Whereabouts, build_accounts}
use shell_agent_v.Examples.Hundredths.{hundredths}

abbrev no_digest : Text → Text
no_digest t = t

abbrev options : BuildOptions ℕ
options = record {
  system_prompt = codes "sys";
  max_context_tokens = 10;
  max_tool_result_tokens = 0;
  output_reserve = 0;
  summarizer_id = codes "m";
  summarize = none;
  now = 1;
  stamp = λ t. codes "2026-01-01 00:00 UTC";
  millions = λ n. codes "1.0";
  wrap = none;
  lookup = none;
  temporal_prefix = none;
  anchor_sources = [];
  dead_topic_sources = [];
  live_topic_sources = [];
  far_summary_share = 5;
  near_summary_share = 15;
  anchor_jaccard_threshold = 40;
  dead_topic_jaccard_threshold = 40;
}

abbrev talk : List Record
talk =
    plain 1 (codes "user") (codes "count the rows of a table")
    ∷ plain 2 (codes "assistant") (codes "there are five rows in it")
    ∷ []

abbrev session : Session
session = record { id = codes "s"; title = []; is_private = false; records = talk; profile_id = [] }

abbrev value_of {ℓ} : {A : Type ℓ} → A → Option A → A
value_of d none = d
value_of d (some a) = a

abbrev no_window : Window
no_window = record { candidates = []; kept = []; used = 0; stopped = false }

abbrev window : Window
window = value_of no_window (walk hundredths no_digest no_digest options none talk)

window_is_found : walk hundredths no_digest no_digest options none talk ≡ some window
unfolding walk
window_is_found = refl

window_fits :
    (newer : List Record) × (talk ≡ window.candidates ++ newer)
    × AllShown hundredths no_digest no_digest options
        (last_or none window.candidates)
        newer
        window.kept
    × (is_nil newer ≡ false)
    × ((ltb 1 (length newer)
          && is_over hundredths no_digest no_digest options
              (tokens_of hundredths no_digest no_digest options window.kept))
        ≡ false)
window_fits = walk_budget hundredths no_digest no_digest options talk window window_is_found

abbrev no_result : BuildResult
no_result = record {
  messages = [];
  total_tokens = 0;
  included_raw = 0;
  summarized_span = 0;
  used_cache = false;
  near_summarized_span = 0;
  far_summarized_span = 0;
  near_cache_hit = false;
  far_cache_hit = false;
  anchored_records = 0;
  dropped_dead_topics = 0;
  cache = none;
}

abbrev built : BuildResult
built = value_of no_result (build hundredths no_digest no_digest options (some session) none)

build_returns : build hundredths no_digest no_digest options (some session) none ≡ some built
unfolding build
build_returns = refl

all_are_accounted :
    Whereabouts hundredths no_digest no_digest
      (resolve_defaults hundredths options)
      (select is_legacy session.records)
      (select is_raw session.records)
      built
all_are_accounted =
    build_accounts hundredths no_digest no_digest options session none built build_returns

abbrev summary : SummaryEntry
summary = record {
  range_key = codes "k";
  kind = kind_content_v2;
  tier = codes "far";
  summarizer_id = codes "m";
  from_timestamp = 1;
  to_timestamp = 2;
  record_count = 2;
  summary = codes "short";
  created_at = 0;
}

abbrev empty_cache : SummaryCache
empty_cache = record { entries = []; max_items = 0 }

right_kind : (kind_content_v2 =ᵗ kind_content_v2) ≡ true
unfolding ◌=ᵗ◌
right_kind = refl

summary_is_kept : get (codes "k") (some (put 7 summary empty_cache)) ≡ some (stamped 7 summary)
summary_is_kept = get-put 7 summary empty_cache right_kind (omega arith)
