-- ===== src/Agent/Tools.antt =====
-- executeTool and what decides it (app/internal/agent/agent.go, agent_mcp.go, tool_descriptor.go;
-- app/internal/toolcall/toolcall.go): the descriptor registry, the MCP guardians, the shell tools,
-- and the approval gate in front of each.
pub mod Gate
use shell_agent_v.Base.{
  Bool, true, false, not, ◌&&◌, Option, none, some, List, [], ◌∷◌, ◌++◌, length, drop,
  if◌then◌else◌,
}
use shell_agent_v.Text.{Text, codes, ◌=ᵗ◌, has_prefix}
use shell_agent_v.Llm.{ToolCall}
use shell_agent_v.Agent.ToolName.{
  is_empty, canonical_tool_name, find, split_mcp_name, original_tool_name, keys,
}
use shell_agent_v.Agent.LoopDetect.{Status, success, error}

pub record ToolDescriptor : Type 0 where
  pub name : Text
  pub source : Text
  pub category : Text
  pub mitl_category_override : Text
  pub mitl_default : Bool
  pub has_handler : Bool

pub data Category : Type 0 where
  read write execute : Category

abbrev pub category_text : Category → Text
category_text read = codes "read"
category_text write = codes "write"
category_text execute = codes "execute"

pub record Tool : Type 0 where
  pub name : Text
  pub category : Category

unfoldable pub needs_mitl : Tool → Bool
needs_mitl t = elim t.category [ write ↦ true | execute ↦ true | read ↦ false ]

pub record MitlRequest : Type 0 where
  pub tool_name : Text
  pub arguments : Text
  pub category : Text

pub record MitlResponse : Type 0 where
  pub approved : Bool
  pub feedback : Text

-- What CallToolContext returns: a result, the context's error, ErrToolFailed with its body, or
-- another error with its text.
pub data CallResult : Type 0 where
  call_ok : Text → CallResult
  call_cancelled : CallResult
  call_tool_failed : Text → CallResult
  call_error : Text → CallResult

-- What toolcall.Execute returns: the output, or an error with its text.
pub data ScriptResult : Type 0 where
  script_ok : Text → ScriptResult
  script_error : Text → ScriptResult

pub record Guardian : Type 0 where
  pub tools : List Text
  pub call : Text → Text → CallResult

-- The agent's registries and settings, and the code behind them that runs a tool. The maps are
-- association lists in some order of iteration; of two entries with one key the last counts.
-- `valid_json` and `extract` are encoding/json and the jsonfix package.
pub record Agent : Type 0 where
  pub descriptors : List ToolDescriptor
  pub guardians : List (Text × Guardian)
  pub shell_tools : List (Text × Tool)
  pub mitl_overrides : List (Text × Bool)
  pub mitl_handler : Option (MitlRequest → MitlResponse)
  pub has_analysis : Bool
  pub has_sandbox : Bool
  pub valid_json : Text → Bool
  pub extract : Text → Option Text
  pub handle : ToolDescriptor → Text → Text × Status
  pub run_script : Tool → Text → ScriptResult

-- The index keeps the last descriptor of a canonical name.
unfoldable pub descriptor_with : Text → List ToolDescriptor → Option ToolDescriptor
unfolding canonical_tool_name ◌=ᵗ◌
descriptor_with canon [] = none
descriptor_with canon (d ∷ ds) = elim (descriptor_with canon ds) [
  | some e ↦ some e
  | none ↦ if canonical_tool_name d.name =ᵗ canon then some d else none
]

unfoldable pub normalize_tool_args : Agent → Text → Text
normalize_tool_args a raw =
    if is_empty raw
    then raw
    else if a.valid_json raw
    then raw
    else elim (a.extract raw) [ none ↦ raw | some fixed ↦ fixed ]

unfoldable pub tool_descriptor_by_name : Agent → Text → Option ToolDescriptor
tool_descriptor_by_name a name = descriptor_with (canonical_tool_name name) a.descriptors

unfoldable pub registry_get : Agent → Text → Option Tool
registry_get a name = find (canonical_tool_name name) a.shell_tools

abbrev pub mcp_prefix : Text
mcp_prefix = codes "mcp__"

-- IsToolMITLRequired without the override.
unfoldable pub mitl_default_of : Agent → Text → Bool
unfolding needs_mitl
mitl_default_of a name =
    if has_prefix name mcp_prefix
    then true
    else if has_prefix name (codes "sandbox_")
    then true
    else elim (tool_descriptor_by_name a name) [
      | some d ↦ d.mitl_default
      | none ↦ elim (registry_get a name) [ some t ↦ needs_mitl t | none ↦ false ]
    ]

unfoldable pub is_tool_mitl_required : Agent → Text → Bool
is_tool_mitl_required a tool_name =
    let name = canonical_tool_name tool_name in
    elim (find name a.mitl_overrides) [ some override ↦ override | none ↦ mitl_default_of a name ]

unfoldable pub rejection_text : Text → Text
rejection_text feedback =
    if not (is_empty feedback)
    then codes "User rejected this operation.\nFeedback: "
      ++ (feedback ++ codes "\nPlease revise your approach based on the feedback.")
    else codes "Tool execution rejected by user."

-- The empty text stands for an approval.
unfoldable pub request_mitl : Agent → MitlRequest → Text
unfolding rejection_text
request_mitl a req = elim a.mitl_handler [
  | none ↦ []
  | some h ↦ if (h req).approved then [] else rejection_text (h req).feedback
]

-- What was run, if anything: the canonical name of the call and the arguments handed over.
pub record Execution : Type 0 where
  pub result : Text
  pub status : Status
  pub ran : Option (Text × Text)
  pub restart : Option Text

abbrev pub refuse : Text → Execution
refuse result = record { result = result; status = error; ran = none; restart = none }

-- The gate in front of a run.
unfoldable pub gated : Agent → Text → Text → Text → Execution → Execution
gated a name arguments category run =
    if is_tool_mitl_required a name
    then (let rejection =
          request_mitl a
            (record { tool_name = name; arguments = arguments; category = category }) in
        if not (is_empty rejection) then refuse rejection else run)
    else run

unfoldable pub tool_mitl_category : ToolDescriptor → Text
tool_mitl_category d =
    if not (is_empty d.mitl_category_override) then d.mitl_category_override else d.category

unfoldable pub run_descriptor : Agent → ToolDescriptor → Text → Text → Execution
run_descriptor a d name arguments = record {
  result = (a.handle d arguments).0;
  status = (a.handle d arguments).1;
  ran = some (name, arguments);
  restart = none;
}

unfoldable pub dispatch_descriptor : Agent → ToolDescriptor → Text → Text → Execution
unfolding ◌=ᵗ◌
dispatch_descriptor a d name arguments =
    if not d.has_handler
    then refuse (codes "Error: tool " ++ (name ++ codes " has no handler"))
    else if d.source =ᵗ codes "analysis" && not a.has_analysis
    then refuse (codes "Error: no analysis engine available")
    else if d.source =ᵗ codes "sandbox" && not a.has_sandbox
    then refuse (codes "Error: sandbox is not enabled")
    else gated a name arguments
        (if is_empty (tool_mitl_category d) then codes "execute" else tool_mitl_category d)
        (run_descriptor a d name arguments)

abbrev pub call_outcome : Text → Text → Text → Text → CallResult → Execution
call_outcome name arguments guardian tool (call_ok result) = record {
  result = result;
  status = success;
  ran = some (name, arguments);
  restart = none;
}
call_outcome name arguments guardian tool call_cancelled = record {
  result = codes "(Cancelled by user)";
  status = error;
  ran = some (name, arguments);
  restart = some guardian;
}
call_outcome name arguments guardian tool (call_tool_failed body) = record {
  result = body;
  status = error;
  ran = some (name, arguments);
  restart = none;
}
call_outcome name arguments guardian tool (call_error e) = record {
  result = codes "Error: MCP " ++ (tool ++ (codes ": " ++ e));
  status = error;
  ran = some (name, arguments);
  restart = none;
}

unfoldable pub call_guardian : Agent → Text → Text → Option (Text × Text) → Execution
unfolding original_tool_name
call_guardian a name arguments none = refuse (codes "Error: invalid MCP tool name format")
call_guardian a name arguments (some (guardian, tool)) = elim (find guardian a.guardians) [
  | none ↦ refuse (codes "Error: MCP guardian \"" ++ (guardian ++ codes "\" not found"))
  | some g ↦
      let original = original_tool_name tool g.tools in
      call_outcome name arguments guardian original (g.call original arguments)
]

abbrev pub script_outcome : Text → Text → ScriptResult → Execution
script_outcome name arguments (script_ok result) = record {
  result = result;
  status = success;
  ran = some (name, arguments);
  restart = none;
}
script_outcome name arguments (script_error e) = record {
  result = codes "Error: " ++ e;
  status = error;
  ran = some (name, arguments);
  restart = none;
}

unfoldable pub execute_shell : Agent → Text → Text → Option Tool → Execution
execute_shell a name arguments none =
    refuse (codes "Error: unknown tool \"" ++ (name ++ codes "\""))
execute_shell a name arguments (some tool) =
    gated a name arguments (category_text tool.category)
      (script_outcome name arguments (a.run_script tool arguments))

unfoldable pub execute_with : Agent → Text → Text → Option ToolDescriptor → Execution
execute_with a name arguments (some d) = dispatch_descriptor a d name arguments
execute_with a name arguments none =
    if has_prefix name mcp_prefix
    then gated a name arguments (codes "execute") (
        call_guardian a name arguments
          (split_mcp_name (drop (length mcp_prefix) name) (keys a.guardians)))
    else execute_shell a name arguments (registry_get a name)

unfoldable pub execute_tool : Agent → ToolCall → Execution
execute_tool a tc =
    let name = canonical_tool_name tc.name in
    execute_with a name (normalize_tool_args a tc.arguments) (tool_descriptor_by_name a name)
