-- ===== src/Context/RawWindow.antt =====
-- The raw records that Build shows as they are (app/internal/contextbuild/builder.go): which records
-- it passes on, renderOne, and the walk back from the newest record. The walk takes each record
-- together with the one before it, which renderOne reads from the slice.
use shell_agent_v.Base.{
  ℕ, ◌+◌, ◌-◌, Bool, true, false, not, ◌&&◌, Option, none, some, List, [], ◌∷◌, map, ltb,
  if◌then◌else◌,
}
use shell_agent_v.Text.{Text, codes, ◌=ᵗ◌, has_prefix}
use shell_agent_v.Session.{Record, ToolCallRecord}
use shell_agent_v.Llm.{Message, ToolCall}
use shell_agent_v.Memory.Floats.{Platform}
use shell_agent_v.Memory.Lifecycle.{is_nil}
use shell_agent_v.Context.Render.{BuildOptions, estimate_tokens, render_record_content}

pub record Rendered : Type 0 where
  pub role : Text
  pub content : Text
  pub tokens : ℕ
  pub tool_name : Text
  pub tool_call_id : Text
  pub tool_calls : List ToolCall
  pub image_urls : List Text
  pub object_ids : List Text
  pub thought_part_sigs : List Text
  pub text_part_sig : Text

unfoldable pub to_llm_tool_call : ToolCallRecord → ToolCall
to_llm_tool_call r = record {
  id = r.id;
  name = r.name;
  arguments = r.arguments;
  thought_signature = r.thought_signature;
}

unfoldable pub to_message : Rendered → Message
to_message r = record {
  role = r.role;
  content = r.content;
  image_urls = r.image_urls;
  object_ids = r.object_ids;
  tool_name = r.tool_name;
  tool_call_id = r.tool_call_id;
  tool_calls = r.tool_calls;
  thought_part_sigs = r.thought_part_sigs;
  text_part_sig = r.text_part_sig;
}

-- The walk over the raw records: those left of the split, those kept, their tokens, and whether the
-- budget has stopped it.
pub record Window : Type 0 where
  pub candidates : List Record
  pub kept : List Rendered
  pub used : ℕ
  pub stopped : Bool

-- The records that Build passes on, and the legacy summaries.
unfoldable pub is_legacy : Record → Bool
unfolding ◌=ᵗ◌
is_legacy r = r.role =ᵗ codes "summary"

unfoldable pub is_raw : Record → Bool
unfolding ◌=ᵗ◌ has_prefix is_legacy
is_raw r =
    not (is_legacy r)
    && not (r.role =ᵗ codes "assistant" && has_prefix r.content (codes "[Calling:"))
    && not (r.role =ᵗ codes "report")

unfoldable pub select : (Record → Bool) → List Record → List Record
select keep [] = []
select keep (r ∷ rs) = let rest = select keep rs in if keep r then r ∷ rest else rest

module _ {F : Type 0} (p : Platform F) (digest hex : Text → Text) (opts : BuildOptions F) where
  abbrev pub rendered_as : Record → Text → Rendered
  rendered_as r content = record {
    role = r.role;
    content = content;
    tokens = estimate_tokens content;
    tool_name = r.tool_name;
    tool_call_id = r.tool_call_id;
    tool_calls = map to_llm_tool_call r.tool_calls;
    image_urls = r.image_urls;
    object_ids = r.object_ids;
    thought_part_sigs = r.thought_part_sigs;
    text_part_sig = r.text_part_sig;
  }

  unfoldable pub render_one : Option Record → Record → Option Rendered
  unfolding render_record_content
  render_one prev r = elim (render_record_content opts prev r) [
    | none ↦ none
    | some c ↦ some (rendered_as r c)
  ]

  -- max_context_tokens - the system prompt - the reserve, not below 0.
  abbrev pub available : ℕ
  available = opts.max_context_tokens - estimate_tokens opts.system_prompt - opts.output_reserve

  -- What the two tiers take of it.
  abbrev pub tier_share : ℕ
  tier_share = p.scale available opts.far_summary_share + p.scale available opts.near_summary_share

  unfoldable pub is_over : ℕ → Bool
  unfolding estimate_tokens
  is_over tokens = ltb 0 opts.max_context_tokens && ltb available (tokens + tier_share)

  -- One step of the walk, given what the newer records have led to.
  unfoldable pub extend_window : Record → Option Rendered → Window → Option Window
  unfolding is_over
  extend_window r rendered w =
      if w.stopped then some (record w { candidates = r ∷ w.candidates }) else elim rendered [
        | none ↦ none
        | some x ↦
            if is_over (w.used + x.tokens) && not (is_nil w.kept)
            then some (record w { candidates = r ∷ w.candidates; stopped = true })
            else some (record w { kept = x ∷ w.kept; used = w.used + x.tokens })
      ]

  unfoldable pub walk : Option Record → List Record → Option Window
  unfolding extend_window render_one
  walk prev [] = some (record { candidates = []; kept = []; used = 0; stopped = false })
  walk prev (r ∷ rs) = elim (walk (some r) rs) [
    | none ↦ none
    | some w ↦ extend_window r (render_one prev r) w
  ]
