-- ===== src/Context/Tiers.antt =====
-- The two summary tiers of Build (app/internal/contextbuild/builder.go): the anchors that are lifted
-- out of the candidates, the dead topics that are dropped, and the block of a tier.
use shell_agent_v.Base.{
  ℕ, suc, ◌/◌, Bool, true, false, not, ◌&&◌, ◌||◌, Option, none, some, List, [], ◌∷◌, ◌++◌, length,
  take, drop, ltb, ◌==◌, if◌then◌else◌,
}
use shell_agent_v.Text.{Text, codes, member, runes, trim_space}
use shell_agent_v.Session.{Record}
use shell_agent_v.Memory.Floats.{Platform, nought}
use shell_agent_v.Memory.Lifecycle.{
  token_set, jaccard_score, anchor_record, dead_topic_record, is_nil,
}
use shell_agent_v.Memory.Prompt.{decimal}
use shell_agent_v.Context.Render.{BuildOptions, render_summary_header}
use shell_agent_v.Context.Cache.{
  SummaryCache, SummaryEntry, kind_content_v2, compute_content_key, get, put,
}

pub record Lifted : Type 0 where
  pub anchors : List Record
  pub indices : List ℕ
  pub remaining : List Record

pub record Dropped : Type 0 where
  pub filtered : List Record
  pub count : ℕ
  pub fingerprints : List Text

-- A tier: its block, whether the cache served it, how many records it stands for, and the cache
-- after it.
pub record Tier : Type 0 where
  pub block : Text
  pub from_cache : Bool
  pub span : ℕ
  pub cache : Option SummaryCache

unfoldable pub partition_for_tiers : List Record → List Record × List Record
partition_for_tiers remaining =
    let mid = length remaining / 2 in (drop mid remaining, take mid remaining)

abbrev pub first_time : List Record → ℕ
first_time [] = 0
first_time (r ∷ rs) = r.timestamp

unfoldable pub last_time : List Record → ℕ
last_time [] = 0
last_time (r ∷ []) = r.timestamp
last_time (r ∷ s ∷ rs) = last_time (s ∷ rs)

module _ {F : Type 0} (p : Platform F) (digest hex : Text → Text) (opts : BuildOptions F) where
  unfoldable pub lift_from : ℕ → List (List Text) → F → List Record → Lifted
  unfolding anchor_record
  lift_from i sets threshold [] = record { anchors = []; indices = []; remaining = [] }
  lift_from i sets threshold (r ∷ rs) =
      let l = lift_from (suc i) sets threshold rs in
      if anchor_record p r.content sets threshold
      then record l { anchors = r ∷ l.anchors; indices = i ∷ l.indices }
      else record l { remaining = r ∷ l.remaining }

  unfoldable pub lift_anchors : List Record → List (List Text) → F → Lifted
  unfolding lift_from
  lift_anchors candidates sets threshold =
      if is_nil sets || p.le threshold (nought p)
      then record { anchors = []; indices = []; remaining = candidates }
      else lift_from 0 sets threshold candidates

  -- The facts of the dead sets that a dropped record resembles, without repetitions. The order is
  -- that of a Go map, which ComputeContentKey sorts.
  unfoldable pub add_hits : List Text → F → List Text → List Text → List Text
  unfolding jaccard_score token_set member
  add_hits content_set threshold [] hits = hits
  add_hits content_set threshold (f ∷ facts) hits =
      let rest = add_hits content_set threshold facts hits in
      if p.le threshold (jaccard_score p content_set (token_set p f)) && not (member f rest)
      then f ∷ rest
      else rest

  unfoldable pub drop_from :
      List (List Text) → List (List Text) → List Text → F → List Record → Dropped
  unfolding dead_topic_record add_hits
  drop_from dead live facts threshold [] = record { filtered = []; count = 0; fingerprints = [] }
  drop_from dead live facts threshold (r ∷ rs) =
      let d = drop_from dead live facts threshold rs in
      if dead_topic_record p r.content dead live threshold
      then record d {
        count = suc d.count;
        fingerprints = add_hits (token_set p r.content) threshold facts d.fingerprints;
      }
      else record d { filtered = r ∷ d.filtered }

  unfoldable pub drop_dead_topics :
      List Record → List (List Text) → List (List Text) → List Text → F → Dropped
  unfolding drop_from
  drop_dead_topics candidates dead live facts threshold =
      if is_nil dead || p.le threshold (nought p)
      then record { filtered = candidates; count = 0; fingerprints = [] }
      else drop_from dead live facts threshold candidates

  abbrev pub summary_entry : Text → Text → List Record → Text → SummaryEntry
  summary_entry key tier input summary = record {
    range_key = key;
    kind = kind_content_v2;
    tier = tier;
    summarizer_id = opts.summarizer_id;
    from_timestamp = first_time input;
    to_timestamp = last_time input;
    record_count = length input;
    summary = summary;
    created_at = opts.now;
  }

  abbrev pub store_summary :
      Text → Text → List Record → Text → Option SummaryCache → Option SummaryCache
  store_summary key tier input out none = none
  store_summary key tier input out (some c) =
      some (put opts.now (summary_entry key tier input out) c)

  -- The result of the summarizer: the text and the cache.
  abbrev pub accept_summary :
      Text → Text → List Record → Option SummaryCache → Option Text → Text × Option SummaryCache
  accept_summary key tier input cache none = ([], cache)
  accept_summary key tier input cache (some out) =
      if is_nil (trim_space (runes out))
      then ([], cache)
      else (out, store_summary key tier input out cache)

  unfoldable pub make_summary :
      Text → Text → List Record → Option SummaryCache → Text × Option SummaryCache
  unfolding put trim_space runes last_time
  make_summary key tier input cache = elim opts.summarize [
    | none ↦ ([], cache)
    | some summarize ↦
        if is_nil input then ([], cache) else accept_summary key tier input cache (summarize input)
  ]

  abbrev pub obtain_summary :
      Text
      → Text
      → List Record
      → Option SummaryCache
      → Option SummaryEntry
      → Text × Bool × Option SummaryCache
  obtain_summary key tier input cache (some e) = (e.summary, true, cache)
  obtain_summary key tier input cache none =
      let (text, cache') = make_summary key tier input cache in (text, false, cache')

  -- The block of a tier ends in no line break but that of its head.
  unfoldable pub ends_line : Text → Bool
  ends_line [] = false
  ends_line (c ∷ []) = c == 0x0A
  ends_line (c ∷ d ∷ s) = ends_line (d ∷ s)

  unfoldable pub tier_text : Text → List Record → ℕ → Text → Text
  unfolding render_summary_header decimal ends_line last_time
  tier_text tier input dropped summary =
      let head =
        codes "[tier="
        ++ (tier
            ++ (codes "]"
                ++ ((if is_nil input
                      then []
                      else codes " "
                        ++ render_summary_header opts (first_time input) (last_time input)
                            (length input))
                    ++ codes "\n"))) in
      let body =
        if not (is_nil summary)
        then head ++ summary
        else if not (is_nil input)
        then head ++ (utf8_unavailable ++ (decimal (length input) ++ codes " records elided]"))
        else head in
      if ltb 0 dropped
      then (if ends_line body then body else body ++ codes "\n")
        ++ (codes "[" ++ (decimal dropped ++ codes " dead-topic turns suppressed]"))
      else body
    where
      utf8_unavailable : Text
      utf8_unavailable = codes "[summary unavailable " ++ (0xE2 ∷ 0x80 ∷ 0x94 ∷ codes " ")

  unfoldable pub assemble_tier :
      Text → List Record → ℕ → List Text → List ℕ → Option SummaryCache → Tier
  unfolding compute_content_key get make_summary tier_text
  assemble_tier tier input dropped dead anchors cache =
      let key = compute_content_key digest hex input opts.summarizer_id dead anchors tier in
      let (summary, from_cache, cache') = obtain_summary key tier input cache (get key cache) in
      if is_nil input && dropped == 0
      then record { block = []; from_cache = false; span = 0; cache = cache }
      else record {
        block = tier_text tier input dropped summary;
        from_cache = from_cache;
        span = length input;
        cache = cache';
      }
