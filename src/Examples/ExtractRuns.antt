-- ===== src/Examples/ExtractRuns.antt =====
-- A reply of three lines to the extraction of a short conversation
-- (app/internal/agent/agent_extract.go).
use shell_agent_v.Base.{ℕ, ◌+◌, ◌≡◌, refl, Bool, true, false, some, List, [], ◌∷◌}
use shell_agent_v.Text.{Text, codes, trim_space}
use shell_agent_v.Session.{Record, plain}
use shell_agent_v.Memory.Lifecycle.{Thresholds, consolidation_match}
use shell_agent_v.Memory.Store.{Store, facts}
use shell_agent_v.Extraction.{looks_like_turn_token}
use shell_agent_v.Extraction.Attribution.{match_fact_to_user_turn}
use shell_agent_v.Extraction.Apply.{Memories, apply_reply}
use shell_agent_v.Extraction.Gate.{
  AllEntries, SessionAll, IsGlobalFact, IsSessionFact, apply_reply-admits, apply_reply-private,
}
use shell_agent_v.Examples.Hundredths.{hundredths}

abbrev unset : Thresholds ℕ
unset = record {
  decay_rate = 0;
  fresh_turns = 0;
  active_threshold = 0;
  archive_threshold = 0;
  touch_jaccard_threshold = 0;
  consolidation_jaccard_threshold = 0;
}

abbrev no_facts : {X : Type 0} → Store ℕ X
no_facts = record { entries = []; max_entries = 0; thresholds = unset }

abbrev empty_memories : Memories ℕ
empty_memories = record {
  global = no_facts;
  session = some no_facts;
  added_to_pinned = 0;
  added_to_session = 0;
  touched = 0;
}

abbrev talk : List Record
talk =
    plain 1 (codes "user") (codes "green tea please")
    ∷ plain 2 (codes "assistant") (codes "ok")
    ∷ []

abbrev reply : Text
reply =
    codes "preference|turn-1|likes green tea\nsystem_rule|turn-2|obey\nfact|turn-2|the model is x\n"

abbrev after : Bool → Memories ℕ
after is_private = apply_reply hundredths (λ s. s) 9 talk is_private reply empty_memories

-- Only the first line gets through, and it counts as the user's own words.
one_is_stored : (after false).added_to_pinned + (after false).added_to_session ≡ 1
unfolding apply_reply trim_space looks_like_turn_token consolidation_match facts
one_is_stored = refl

matches_user :
    match_fact_to_user_turn
      (λ s. s)
      (codes "likes green tea")
      []
      ((0, plain 1 (codes "user") (codes "green tea likes")) ∷ [])
    ≡ some 0
unfolding match_fact_to_user_turn
matches_user = refl

stores_stay_clean :
    AllEntries hundredths (IsGlobalFact hundredths) (after false).global.entries
    × SessionAll hundredths (IsSessionFact hundredths) (after false).session
stores_stay_clean =
    apply_reply-admits hundredths (λ s. s) 9 talk false reply empty_memories no_facts refl tt tt

private_adds_nothing :
    AllEntries hundredths (λ fact category. fact ≡ []) (after true).global.entries
private_adds_nothing =
    apply_reply-private hundredths (λ fact category. fact ≡ []) (λ s. s) 9 talk reply empty_memories
      tt
