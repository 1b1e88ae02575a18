-- ===== src/Session.antt =====
-- Session records and the methods that append them (app/internal/memory/memory.go). Times are
-- nanoseconds, 0 being the zero time; the caller passes what time.Now returns.
use shell_agent_v.Base.{ℕ, Bool, Option, none, List, [], ◌∷◌, ◌++◌}
use shell_agent_v.Text.{Text, codes}

pub record TimeRange : Type 0 where
  pub from : ℕ
  pub to : ℕ

pub record ToolCallRecord : Type 0 where
  pub id : Text
  pub name : Text
  pub arguments : Text
  pub thought_signature : Text

pub record Record : Type 0 where
  pub timestamp : ℕ
  pub role : Text
  pub content : Text
  pub tool_call_id : Text
  pub tool_name : Text
  pub tool_calls : List ToolCallRecord
  pub object_ids : List Text
  pub image_urls : List Text
  pub document_ids : List Text
  pub summary_range : Option TimeRange
  pub status : Text
  pub thought_part_sigs : List Text
  pub text_part_sig : Text

pub record Session : Type 0 where
  pub id : Text
  pub title : Text
  pub is_private : Bool
  pub records : List Record
  pub profile_id : Text

-- A record whose fields but the time, the role and the content have Go's zero values.
abbrev pub plain : ℕ → Text → Text → Record
plain now role content = record {
  timestamp = now;
  role = role;
  content = content;
  tool_call_id = [];
  tool_name = [];
  tool_calls = [];
  object_ids = [];
  image_urls = [];
  document_ids = [];
  summary_range = none;
  status = [];
  thought_part_sigs = [];
  text_part_sig = [];
}

abbrev append : Session → Record → Session
append s r = record s { records = s.records ++ r ∷ [] }

unfoldable pub add_user_message : ℕ → Text → Session → Session
add_user_message now content s = append s (plain now (codes "user") content)

unfoldable pub add_assistant_message : ℕ → Text → Session → Session
add_assistant_message now content s = append s (plain now (codes "assistant") content)

unfoldable pub add_assistant_message_with_tool_calls :
    ℕ → Text → List ToolCallRecord → List Text → Text → Session → Session
add_assistant_message_with_tool_calls now content calls thought_part_sigs text_part_sig s =
    append s (record (plain now (codes "assistant") content) {
      tool_calls = calls;
      thought_part_sigs = thought_part_sigs;
      text_part_sig = text_part_sig;
    })

-- The tool name holds the title of a report.
unfoldable pub add_report_message : ℕ → Text → Text → Session → Session
add_report_message now title content s =
    append s (record (plain now (codes "report") content) { tool_name = title })

unfoldable pub add_tool_result : ℕ → Text → Text → Text → Text → Session → Session
add_tool_result now tool_call_id tool_name content status s =
    append s (record (plain now (codes "tool") content) {
      tool_call_id = tool_call_id;
      tool_name = tool_name;
      status = status;
    })
