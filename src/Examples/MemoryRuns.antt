-- ===== src/Examples/MemoryRuns.antt =====
-- A store of two entries, over its capacity (app/internal/memory).
use shell_agent_v.Base.{
  ℕ, suc, ◌+◌, ◌≤◌, ◌≡◌, refl, Bool, true, false, ◌&&◌, none, some, List, [], ◌∷◌, ◌++◌, length,
  take, drop, get_elem?, All, ltb, if◌then◌else◌,
}
use shell_agent_v.Text.{Text, codes, concat, member, encode_rune}
use shell_agent_v.Memory.Lifecycle.{active, dormant, Thresholds, token_set, consolidation_match}
use shell_agent_v.Memory.Lifecycle.Match.{score_of, consolidation_match_lem}
use shell_agent_v.Memory.Store.{Entry, Store, evict_lowest_relevance, add}
use shell_agent_v.Memory.Store.Eviction.{is_lower, evict_lowest_relevance_lem, add_bound}
use shell_agent_v.Memory.Prompt.{fit_lines, format_for_prompt}
use shell_agent_v.Memory.Prompt.Live.{fit_lines_lem, live_entries, format_for_prompt_live}
use shell_agent_v.Memory.Edit.{get_by_fact, set, delete_by_facts, valid_category}
use shell_agent_v.Memory.Edit.Laws.{set_lem, delete_by_facts_lem}
use shell_agent_v.Examples.Hundredths.{hundredths, hundredths-IsOrdered}

-- All thresholds are left at zero, which stands for the defaults.
abbrev unset : Thresholds ℕ
unset = record {
  decay_rate = 0;
  fresh_turns = 0;
  active_threshold = 0;
  archive_threshold = 0;
  touch_jaccard_threshold = 0;
  consolidation_jaccard_threshold = 0;
}

abbrev likes_tea : Entry ℕ Unit
likes_tea = record {
  fact = codes "the user likes tea";
  native_fact = [];
  category = codes "preference";
  source_time = 5;
  created_at = 5;
  source_turn_index = tt;
  source = codes "user_turn";
  tool_originated = false;
  relevance = 100;
  created_turn = 1;
  last_touched_at = 5;
  last_touched_turn = 1;
  touch_count = 0;
  state = active;
}

abbrev old_plan : Entry ℕ Unit
old_plan = record likes_tea { fact = codes "an old plan"; relevance = 30; state = dormant }

abbrev two_facts : Store ℕ Unit
two_facts = record { entries = likes_tea ∷ old_plan ∷ []; max_entries = 1; thresholds = unset }

one_is_evicted :
    (k : ℕ) × (v : Entry ℕ Unit) × (get_elem? two_facts.entries k ≡ some v)
    × (evict_lowest_relevance hundredths two_facts.entries
        ≡ take k two_facts.entries ++ drop (suc k) two_facts.entries)
    × All (λ x. is_lower hundredths x v ≡ false) two_facts.entries
one_is_evicted =
    evict_lowest_relevance_lem hundredths hundredths-IsOrdered likes_tea (old_plan ∷ [])

stays_small : length (add hundredths 50 9 old_plan two_facts).1.entries ≤ 2
stays_small = add_bound hundredths 50 9 old_plan two_facts

abbrev any_fact : Text → Bool
any_fact t = true

abbrev known : List Text
known = codes "likes tea" ∷ codes "tea likes" ∷ []

tie_goes_to_last : consolidation_match hundredths known (codes "likes tea") 50 ≡ some 1
unfolding consolidation_match encode_rune
tie_goes_to_last = refl

best_is_found :
    (f : Text) × (get_elem? known 1 ≡ some f)
    × (hundredths.le 50 (score_of hundredths (token_set hundredths (codes "likes tea")) f) ≡ true)
    × (hundredths.le
          (score_of hundredths (token_set hundredths (codes "likes tea")) (codes "likes tea"))
          (score_of hundredths (token_set hundredths (codes "likes tea")) f)
        ≡ true)
    × ((ltb 1 0
          && hundredths.le
              (score_of hundredths (token_set hundredths (codes "likes tea")) f)
              (score_of hundredths (token_set hundredths (codes "likes tea")) (codes "likes tea")))
        ≡ false)
best_is_found =
    consolidation_match_lem hundredths known (codes "likes tea") 50 1 0 (codes "likes tea")
      hundredths-IsOrdered tie_goes_to_last refl

last_line_fits :
    (elided : List Text) × ((codes "ab" ∷ codes "cd" ∷ [])
      ≡ elided ++ (fit_lines 3 (codes "ab" ∷ codes "cd" ∷ [])).0)
    × (length (concat (fit_lines 3 (codes "ab" ∷ codes "cd" ∷ [])).0) ≤ 3)
last_line_fits = fit_lines_lem 3 (codes "ab" ∷ codes "cd" ∷ [])

abbrev no_date : ℕ → Text
no_date n = codes "2026-01-01"

abbrev no_tag : Text → Text
no_tag s = codes "[derived]"

plan_is_hidden :
    format_for_prompt no_date no_tag
      (codes "facts")
      (record two_facts { entries = live_entries no_date no_tag (codes "facts") two_facts.entries })
    ≡ format_for_prompt no_date no_tag (codes "facts") two_facts
plan_is_hidden = format_for_prompt_live no_date no_tag (codes "facts") two_facts

coffee_is_set :
    (e : Entry ℕ Unit) × (get_by_fact
        (codes "coffee")
        (set hundredths tt 3 (codes "coffee") [] [] two_facts).entries
      ≡ some e)
    × (e.fact ≡ codes "coffee")
    × (e.native_fact ≡ [])
    × (e.category ≡ valid_category [])
coffee_is_set = set_lem hundredths tt 3 (codes "coffee") [] [] two_facts

no_coffee : get_by_fact (codes "coffee") two_facts.entries ≡ none
unfolding get_by_fact
no_coffee = refl

plan_is_deleted :
    let (n, s') = delete_by_facts (codes "an old plan" ∷ []) two_facts in
    (get_by_fact (codes "coffee") s'.entries ≡ (
      if member (codes "coffee") (codes "an old plan" ∷ [])
      then none
      else get_by_fact (codes "coffee") two_facts.entries))
    × (n + length s'.entries ≡ 2)
plan_is_deleted = delete_by_facts_lem (codes "an old plan" ∷ []) (codes "coffee") two_facts refl
