-- ===== src/Llm.antt =====
-- The messages and responses of the LLM backends (app/internal/llm/backend.go).
use shell_agent_v.Base.{ℕ, List, []}
use shell_agent_v.Text.{Text}

pub record ToolCall : Type 0 where
  pub id : Text
  pub name : Text
  pub arguments : Text
  pub thought_signature : Text

pub record Message : Type 0 where
  pub role : Text
  pub content : Text
  pub image_urls : List Text
  pub object_ids : List Text
  pub tool_name : Text
  pub tool_call_id : Text
  pub tool_calls : List ToolCall
  pub thought_part_sigs : List Text
  pub text_part_sig : Text

pub record Response : Type 0 where
  pub content : Text
  pub tool_calls : List ToolCall
  pub prompt_tokens : ℕ
  pub output_tokens : ℕ
  pub thought_part_sigs : List Text
  pub text_part_sig : Text

-- A message with a role and a content only.
abbrev pub message : Text → Text → Message
message role content = record {
  role = role;
  content = content;
  image_urls = [];
  object_ids = [];
  tool_name = [];
  tool_call_id = [];
  tool_calls = [];
  thought_part_sigs = [];
  text_part_sig = [];
}
