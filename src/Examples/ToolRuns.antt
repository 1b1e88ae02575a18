-- ===== src/Examples/ToolRuns.antt =====
-- One approved shell tool, one MCP tool name, and the migration of the approval settings
-- (app/internal/agent/agent.go, agent_mcp.go).
use shell_agent_v.Base.{◌≡◌, refl, true, false, none, some, [], ◌∷◌, ◌++◌}
use shell_agent_v.Text.{Text, codes, member, ◌=ᵗ◌, has_prefix}
use shell_agent_v.Llm.{ToolCall}
use shell_agent_v.Agent.LoopDetect.{success}
use shell_agent_v.Agent.ToolName.{
  is_empty, canonical_tool_name, split_mcp_name, find, canonicalise_mitl_override_keys, migrate_one,
  put,
}
use shell_agent_v.Agent.Tools.{
  Agent, MitlRequest, MitlResponse, Tool, execute, script_ok, execute_tool, is_tool_mitl_required,
  execute_with, tool_descriptor_by_name, descriptor_with, execute_shell, registry_get, gated,
  mitl_default_of, request_mitl, normalize_tool_args,
}
use shell_agent_v.Agent.Tools.Gate.{request, execute_tool_approved}
use shell_agent_v.Agent.ToolName.Split.{split_mcp_name_sound}

-- The user approves what they are asked.
abbrev approves : MitlRequest → MitlResponse
approves req = record { approved = true; feedback = [] }

abbrev run_file : Tool
run_file = record { name = codes "run_file"; category = execute }

abbrev with_one_tool : Agent
with_one_tool = record {
  descriptors = [];
  guardians = [];
  shell_tools = (codes "run_file", run_file) ∷ [];
  mitl_overrides = [];
  mitl_handler = some approves;
  has_analysis = false;
  has_sandbox = false;
  valid_json = λ s. true;
  extract = λ s. none;
  handle = λ d arguments. ([], success);
  run_script = λ t arguments. script_ok (codes "ok");
}

abbrev call_it : ToolCall
call_it = record {
  id = codes "1";
  name = codes "run-file";
  arguments = codes "{}";
  thought_signature = [];
}

call_runs : (execute_tool with_one_tool call_it).ran ≡ some (codes "run_file", codes "{}")
unfolding execute_tool execute_with tool_descriptor_by_name descriptor_with has_prefix execute_shell
    registry_get find gated is_tool_mitl_required mitl_default_of request_mitl normalize_tool_args
call_runs = refl

call_needs_approval : is_tool_mitl_required with_one_tool (codes "run_file") ≡ true
unfolding is_tool_mitl_required find mitl_default_of has_prefix canonical_tool_name
    tool_descriptor_by_name descriptor_with registry_get
call_needs_approval = refl

run_was_approved :
    (category : Text) × ((approves (request (codes "run_file") (codes "{}") category)).approved
      ≡ true)
run_was_approved =
    execute_tool_approved with_one_tool call_it (codes "run_file") (codes "{}") approves call_runs
      call_needs_approval refl

names_split :
    split_mcp_name (codes "my_fs__read") (codes "my-fs" ∷ []) ≡ some (codes "my-fs", codes "read")
unfolding split_mcp_name canonical_tool_name
names_split = refl

split_is_sound :
    (member (codes "my-fs") (codes "my-fs" ∷ []) ≡ true)
    × (codes "my_fs__read" ≡ canonical_tool_name (codes "my-fs") ++ (codes "__" ++ codes "read"))
    × (is_empty (codes "read") ≡ false)
split_is_sound =
    split_mcp_name_sound (codes "my_fs__read") (codes "my-fs" ∷ []) (codes "my-fs") (codes "read")
      names_split

differs : (canonical_tool_name (codes "a-b") =ᵗ codes "a-b") ≡ false
unfolding canonical_tool_name ◌=ᵗ◌
differs = refl

migrated :
    find (codes "a_b") (canonicalise_mitl_override_keys ((codes "a-b", false) ∷ [])) ≡ some false
unfolding canonicalise_mitl_override_keys find migrate_one put
migrated = refl
