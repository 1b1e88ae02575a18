-- ===== src/Context/Render.antt =====
-- Token estimates and the text of one record (app/internal/memory/tokens.go,
-- app/internal/contextbuild/render.go, options.go, app/internal/llm/backend.go).
use shell_agent_v.Base.{
  ℕ, ◌+◌, ◌-◌, ◌*◌, ◌/◌, Bool, true, false, not, ◌&&◌, ◌||◌, Option, none, some, List, [], ◌∷◌,
  ◌++◌, length, take, ltb, leb, ◌==◌, if◌then◌else◌, max,
}
use shell_agent_v.Text.{Text, codes, ◌=ᵗ◌, runes, count_fields}
use shell_agent_v.Session.{Record}
use shell_agent_v.Memory.Prompt.{decimal}

-- The ideographs of the word based estimate.
unfoldable pub count_wide : List ℕ → ℕ
count_wide [] = 0
count_wide (r ∷ rs) =
    (if leb 0x3000 r && leb r 0x9FFF || leb 0xF900 r && leb r 0xFAFF then 2 else 0) + count_wide rs

-- int(float64(words) * 1.3) is words * 13 / 10 for every number of words that fits in memory.
unfoldable pub estimate_tokens : Text → ℕ
unfolding count_wide runes count_fields
estimate_tokens text =
    max (length text / 4) (count_wide (runes text) + count_fields false (runes text) * 13 / 10)

unfoldable pub truncation_note : ℕ → Text
unfolding decimal
truncation_note size = codes "\n... [truncated, " ++ (decimal size ++ codes " bytes total]")

unfoldable pub cut : Text → Text → ℕ → Text
cut text suffix max_chars =
    if leb max_chars (length suffix)
    then take max_chars text
    else take (max_chars - length suffix) text ++ suffix

unfoldable pub truncate_to_tokens : Text → ℕ → Text
truncate_to_tokens text max_tokens =
    if max_tokens == 0
    then text
    else if leb (estimate_tokens text) max_tokens
    then text
    else if leb (length text) (max_tokens * 4)
    then text
    else cut text (truncation_note (length text)) (max_tokens * 4)

-- What Build and the rendering take from their caller. A negative number counts as 0, which the code
-- treats alike; `stamp` is formatTimestamp in the configured zone, `millions` is the format %.1f of
-- a millionth, `summarize` and `wrap` are `none` where they are nil and return `none` for an error.
pub record BuildOptions (F : Type 0) : Type 0 where
  pub system_prompt : Text
  pub max_context_tokens : ℕ
  pub max_tool_result_tokens : ℕ
  pub output_reserve : ℕ
  pub summarizer_id : Text
  pub summarize : Option (List Record → Option Text)
  pub now : ℕ
  pub stamp : ℕ → Text
  pub millions : ℕ → Text
  pub wrap : Option (Text → Option Text)
  pub lookup : Option (Text → Option (Text × ℕ))
  pub temporal_prefix : Option (ℕ → Text)
  pub anchor_sources : List Text
  pub dead_topic_sources : List Text
  pub live_topic_sources : List Text
  pub far_summary_share : F
  pub near_summary_share : F
  pub anchor_jaccard_threshold : F
  pub dead_topic_jaccard_threshold : F

-- 30 minutes in nanoseconds.
abbrev pub recent_gap : ℕ
recent_gap = 1800000000000

-- The record before, if there is one.
unfoldable pub should_annotate : Option Record → Record → Bool
unfolding ◌=ᵗ◌
should_annotate prev r =
    if r.role =ᵗ codes "tool" || r.role =ᵗ codes "report"
    then true
    else elim prev [ none ↦ false | some q ↦ ltb (q.timestamp + recent_gap) r.timestamp ]

abbrev pub is_none_left {ℓ} : {A : Type ℓ} → List A → Bool
is_none_left [] = true
is_none_left (x ∷ xs) = false

module _ {F : Type 0} (opts : BuildOptions F) where
  unfoldable pub document_id_prefix : Text → Text → ℕ → Text
  unfolding decimal
  document_id_prefix id orig_name tokens =
      let size =
        if leb 1000000 tokens
        then codes ", " ++ (opts.millions tokens ++ codes "M tokens")
        else if leb 1000 tokens
        then codes ", " ++ (decimal (tokens / 1000) ++ codes "k tokens")
        else if ltb 0 tokens
        then codes ", " ++ (decimal tokens ++ codes " tokens")
        else [] in
      if not (is_none_left orig_name)
      then codes "Document (object ID: "
        ++ (id ++ (codes ", name: " ++ (orig_name ++ (size ++ codes "):"))))
      else codes "Document (object ID: " ++ (id ++ (size ++ codes "):"))

  unfoldable pub document_lines : (Text → Option (Text × ℕ)) → List Text → Text
  unfolding document_id_prefix
  document_lines lookup [] = []
  document_lines lookup (id ∷ ids) = elim (lookup id) [
    | none ↦ document_lines lookup ids
    | some (name, tokens) ↦
        document_id_prefix id name tokens ++ (codes "\n" ++ document_lines lookup ids)
  ]

  unfoldable pub prepend_document_anchors : Text → List Text → Text
  unfolding document_lines
  prepend_document_anchors content ids = elim opts.lookup [
    | none ↦ content
    | some lookup ↦ document_lines lookup ids ++ content
  ]

  abbrev pub truncated : Record → Text
  truncated r =
      if r.role =ᵗ codes "tool" && ltb 0 opts.max_tool_result_tokens
      then truncate_to_tokens r.content opts.max_tool_result_tokens
      else r.content

  abbrev pub wrapped : Record → Text → Option Text
  wrapped r content =
      if r.role =ᵗ codes "user" || r.role =ᵗ codes "tool"
      then elim opts.wrap [ none ↦ some content | some wrap ↦ wrap content ]
      else some content

  abbrev pub prefixed : Record → Text → Text
  prefixed r content =
      if r.role =ᵗ codes "user" && not (r.timestamp == 0)
      then elim opts.temporal_prefix [
        | none ↦ content
        | some prefix ↦ prefix r.timestamp ++ (codes "\n\n" ++ content)
      ]
      else content

  abbrev pub annotated : Option Record → Record → Text → Text
  annotated prev r content =
      if should_annotate prev r
      then codes "[" ++ (opts.stamp r.timestamp ++ (codes "]\n" ++ content))
      else content

  abbrev pub with_documents : Record → Text → Text
  with_documents r content =
      if r.role =ᵗ codes "user" && not (is_none_left r.document_ids)
      then prepend_document_anchors content r.document_ids
      else content

  -- The record before it and the record; `none` where the guard fails.
  unfoldable pub render_record_content : Option Record → Record → Option Text
  unfolding should_annotate truncate_to_tokens prepend_document_anchors ◌=ᵗ◌
  render_record_content prev r = elim (wrapped r (truncated r)) [
    | none ↦ none
    | some content ↦ some (with_documents r (annotated prev r (prefixed r content)))
  ]

  unfoldable pub render_summary_header : ℕ → ℕ → ℕ → Text
  unfolding decimal
  render_summary_header from to count =
      codes "[Summary of "
      ++ (decimal count
          ++ (utf8_dash ++ (opts.stamp from ++ (codes " to " ++ (opts.stamp to ++ codes "]")))))
    where
      utf8_dash : Text
      utf8_dash = codes " earlier turn(s) " ++ (0xE2 ∷ 0x80 ∷ 0x94 ∷ codes " from ")
