-- ===== src/Context/Build.antt =====
-- Build (app/internal/contextbuild/builder.go): the raw window, the two tiers and the anchors put
-- together.
pub mod Kept
pub mod Conserve
use shell_agent_v.Base.{
  ℕ, ◌+◌, Bool, false, ◌&&◌, ◌||◌, Option, none, some, List, [], ◌∷◌, ◌++◌, map, length, ◌==◌,
  if◌then◌else◌,
}
use shell_agent_v.Text.{Text, codes}
use shell_agent_v.Session.{Record, Session}
use shell_agent_v.Llm.{Message, message}
use shell_agent_v.Memory.Floats.{Platform, nought}
use shell_agent_v.Memory.Lifecycle.{token_set, is_nil}
use shell_agent_v.Context.Render.{BuildOptions, estimate_tokens, render_summary_header}
use shell_agent_v.Context.Cache.{SummaryCache}
use shell_agent_v.Context.RawWindow.{
  Rendered, Window, to_message, is_legacy, is_raw, select, render_one, walk,
}
use shell_agent_v.Context.Tiers.{
  Lifted, Dropped, Tier, lift_anchors, drop_dead_topics, partition_for_tiers, assemble_tier,
}

pub record BuildResult : Type 0 where
  pub messages : List Message
  pub total_tokens : ℕ
  pub included_raw : ℕ
  pub summarized_span : ℕ
  pub used_cache : Bool
  pub near_summarized_span : ℕ
  pub far_summarized_span : ℕ
  pub near_cache_hit : Bool
  pub far_cache_hit : Bool
  pub anchored_records : ℕ
  pub dropped_dead_topics : ℕ
  pub cache : Option SummaryCache

module _ {F : Type 0} (p : Platform F) (digest hex : Text → Text) (opts : BuildOptions F) where
  -- The records of one part of the result with their tokens.
  abbrev pub tokens_of : List Rendered → ℕ
  tokens_of [] = 0
  tokens_of (x ∷ xs) = x.tokens + tokens_of xs

  unfoldable pub render_all : Option Record → List Record → Option (List Rendered)
  unfolding render_one
  render_all prev [] = some []
  render_all prev (r ∷ rs) = elim (render_one p digest hex opts prev r) [
    | none ↦ none
    | some x ↦ elim (render_all (some r) rs) [ none ↦ none | some xs ↦ some (x ∷ xs) ]
  ]

  unfoldable pub legacy_text : Record → Text
  unfolding render_summary_header
  legacy_text r =
      (elim r.summary_range [
        | none ↦ render_summary_header opts r.timestamp r.timestamp 1
        | some range ↦ render_summary_header opts range.from range.to 1
      ])
      ++ (codes "\n" ++ r.content)

  abbrev pub block_texts : Text → List Text
  block_texts [] = []
  block_texts (c ∷ s) = (c ∷ s) ∷ []

  abbrev pub tokens_of_texts : List Text → ℕ
  tokens_of_texts [] = 0
  tokens_of_texts (t ∷ ts) = estimate_tokens t + tokens_of_texts ts

  abbrev pub system_messages : List Message
  system_messages =
      if is_nil opts.system_prompt then [] else message (codes "system") opts.system_prompt ∷ []

  -- Build after the walk: the legacy records, the window, the two tiers, and the anchors.
  unfoldable pub assemble :
      List Record
      → Window
      → Dropped
      → Lifted
      → Tier
      → Tier
      → Option (List Rendered)
      → Option BuildResult
  unfolding legacy_text to_message
  assemble legacy w d l far near none = none
  assemble legacy w d l far near (some anchors) =
      let texts = map legacy_text legacy ++ (block_texts far.block ++ block_texts near.block) in
      some (record {
        messages =
            system_messages
            ++ (map (message (codes "summary")) texts
                ++ (map to_message anchors ++ map to_message w.kept));
        total_tokens =
            w.used + tokens_of_texts texts + tokens_of anchors + estimate_tokens opts.system_prompt;
        included_raw = length w.kept;
        summarized_span = near.span + far.span;
        used_cache = (near.span == 0 || near.from_cache) && (far.span == 0 || far.from_cache);
        near_summarized_span = near.span;
        far_summarized_span = far.span;
        near_cache_hit = near.from_cache;
        far_cache_hit = far.from_cache;
        anchored_records = length l.anchors;
        dropped_dead_topics = d.count;
        cache = near.cache;
      })

  -- The candidates of the window, taken apart. The far tier comes first and hands the cache on.
  unfoldable pub compact : List Record → Option SummaryCache → Option Window → Option BuildResult
  unfolding lift_anchors drop_dead_topics partition_for_tiers assemble_tier render_all assemble
      token_set
  compact legacy cache none = none
  compact legacy cache (some w) =
      let l =
        lift_anchors p digest hex opts w.candidates (map (token_set p) opts.anchor_sources)
          opts.anchor_jaccard_threshold in
      let d =
        drop_dead_topics p digest hex opts l.remaining (map (token_set p) opts.dead_topic_sources)
          (map (token_set p) opts.live_topic_sources) opts.dead_topic_sources
          opts.dead_topic_jaccard_threshold in
      let (near_input, far_input) = partition_for_tiers d.filtered in
      let far =
        assemble_tier p digest hex opts (codes "far") far_input d.count d.fingerprints l.indices
          cache in
      let near =
        assemble_tier p digest hex opts (codes "near") near_input 0 d.fingerprints l.indices
          far.cache in
      assemble legacy w d l far near (render_all none l.anchors)

  abbrev pub only_system : Option SummaryCache → BuildResult
  only_system cache = record {
    messages = system_messages;
    total_tokens = estimate_tokens opts.system_prompt;
    included_raw = 0;
    summarized_span = 0;
    used_cache = false;
    near_summarized_span = 0;
    far_summarized_span = 0;
    near_cache_hit = false;
    far_cache_hit = false;
    anchored_records = 0;
    dropped_dead_topics = 0;
    cache = cache;
  }

  -- After resolveDefaults; `none` where the guard fails.
  unfoldable pub build_records : List Record → Option SummaryCache → Option BuildResult
  unfolding select is_raw is_legacy walk compact
  build_records records cache =
      if is_nil records
      then some (only_system cache)
      else compact (select is_legacy records) cache
          (walk p digest hex opts none (select is_raw records))

module _ {F : Type 0} (p : Platform F) where
  unfoldable pub resolve_defaults : BuildOptions F → BuildOptions F
  resolve_defaults o = record o {
    far_summary_share =
        if p.le o.far_summary_share (nought p) then p.ratio 5 100 else o.far_summary_share;
    near_summary_share =
        if p.le o.near_summary_share (nought p) then p.ratio 15 100 else o.near_summary_share;
    anchor_jaccard_threshold =
        if p.le o.anchor_jaccard_threshold (nought p)
        then p.ratio 4 10
        else o.anchor_jaccard_threshold;
    dead_topic_jaccard_threshold =
        if p.le o.dead_topic_jaccard_threshold (nought p)
        then p.ratio 4 10
        else o.dead_topic_jaccard_threshold;
  }

  -- A nil session has no records.
  unfoldable pub build :
      (Text → Text)
      → (Text → Text)
      → BuildOptions F
      → Option Session
      → Option SummaryCache
      → Option BuildResult
  unfolding resolve_defaults build_records
  build digest hex opts none cache = build_records p digest hex (resolve_defaults opts) [] cache
  build digest hex opts (some s) cache =
      build_records p digest hex (resolve_defaults opts) s.records cache
