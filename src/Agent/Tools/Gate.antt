-- ===== src/Agent/Tools/Gate.antt =====
-- The approval gate of executeTool (app/internal/agent/agent.go).
use mathlib.Core.Path.{subst}
use shell_agent_v.Base.{
  ◌≡◌, refl, Bool, true, false, Option, none, some, arith, ◌⊎◌, inl, inr, if◌then◌else◌,
  Option-cases, drop, length,
}
use shell_agent_v.Text.{Text, codes, has_prefix}
use shell_agent_v.Llm.{ToolCall}
use shell_agent_v.Agent.ToolName.{is_empty, find, split_mcp_name, keys}
use shell_agent_v.Agent.Tools.{
  Agent, MitlRequest, MitlResponse, ToolDescriptor, Tool, Execution, CallResult, ScriptResult,
  call_outcome, call_ok, call_cancelled, call_tool_failed, call_error, script_outcome, script_ok,
  script_error, is_tool_mitl_required, request_mitl, gated, run_descriptor, dispatch_descriptor,
  tool_mitl_category, call_guardian, execute_shell, execute_with, execute_tool, registry_get,
  tool_descriptor_by_name, mcp_prefix, category_text,
}

abbrev pub request : Text → Text → Text → MitlRequest
request name arguments category = record {
  tool_name = name;
  arguments = arguments;
  category = category;
}

-- Whatever was run and needs an approval was approved, under its name and its arguments.
record IsApproved (a : Agent) (e : Execution) : Type 0 where
  at :
      (name arguments : Text) (h : MitlRequest → MitlResponse)
      → e.ran ≡ some (name, arguments)
      → is_tool_mitl_required a name ≡ true
      → a.mitl_handler ≡ some h
      → (category : Text) × ((h (request name arguments category)).approved ≡ true)

-- A run that is not gated yet: nothing, or the tool of this name with these arguments.
abbrev RunsOnly : Text → Text → Execution → Type 0
RunsOnly name arguments e = (e.ran ≡ none) ⊎ (e.ran ≡ some (name, arguments))

approved_of_empty :
    (a : Agent) (req : MitlRequest) (h : MitlRequest → MitlResponse)
    → a.mitl_handler ≡ some h
    → is_empty (request_mitl a req) ≡ true
    → (h req).approved ≡ true
unfolding request_mitl
approved_of_empty a req h e r = ground arith

IsApproved-nothing : (a : Agent) (e : Execution) → e.ran ≡ none → IsApproved a e
IsApproved-nothing a e q = record { at = λ name arguments h r. absurd (ground (arith, q, r)) }

module _ (a : Agent) (name arguments category : Text) (run : Execution) where
  gated-ran :
      (x : Text × Text) → (gated a name arguments category run).ran ≡ some x → run.ran ≡ some x
  unfolding gated
  gated-ran x r = ground arith

  gated_asked :
      (x : Text × Text)
      → (gated a name arguments category run).ran ≡ some x
      → is_tool_mitl_required a name ≡ true
      → is_empty (request_mitl a (request name arguments category)) ≡ true
  unfolding gated
  gated_asked x r q = ground arith

  same_run :
      (n args : Text)
      → RunsOnly name arguments run
      → run.ran ≡ some (n, args)
      → (n ≡ name) × (args ≡ arguments)
  same_run n args (inl nothing) r = absurd (cc)
  same_run n args (inr e) r = (cc, cc)

  IsApproved-gated :
      RunsOnly name arguments run → IsApproved a (gated a name arguments category run)
  IsApproved-gated only = record {
    at = λ n args h r q e.
        let (en, ea) = same_run n args only (gated-ran (n, args) r) in
        let asked = gated_asked (n, args) r (subst (λ m. is_tool_mitl_required a m ≡ true) en q) in
        (category, rw (en, ea) (approved_of_empty a (request name arguments category) h e asked));
  }

RunsOnly-call :
    (name arguments guardian tool : Text) (c : CallResult)
    → RunsOnly name arguments (call_outcome name arguments guardian tool c)
RunsOnly-call name arguments guardian tool (call_ok r) = inr refl
RunsOnly-call name arguments guardian tool call_cancelled = inr refl
RunsOnly-call name arguments guardian tool (call_tool_failed r) = inr refl
RunsOnly-call name arguments guardian tool (call_error r) = inr refl

RunsOnly-script :
    (name arguments : Text) (r : ScriptResult)
    → RunsOnly name arguments (script_outcome name arguments r)
RunsOnly-script name arguments (script_ok r) = inr refl
RunsOnly-script name arguments (script_error r) = inr refl

module _ (a : Agent) (name arguments : Text) where
  RunsOnly-guardian :
      (split : Option (Text × Text))
      → RunsOnly name arguments (call_guardian a name arguments split)
  unfolding call_guardian
  RunsOnly-guardian none = inl refl
  RunsOnly-guardian (some (guardian, tool)) = elim (Option-cases (find guardian a.guardians)) [
    | inl e ↦ rw (e, call_guardian) (inl refl)
    | inr (g, e) ↦ rw (e, call_guardian) (RunsOnly-call name arguments guardian _ _)
  ]

  IsApproved-shell : (t : Option Tool) → IsApproved a (execute_shell a name arguments t)
  unfolding execute_shell
  IsApproved-shell none = IsApproved-nothing a _ refl
  IsApproved-shell (some tool) =
      let r = a.run_script tool arguments in
      IsApproved-gated a name arguments (category_text tool.category)
        (script_outcome name arguments r) (RunsOnly-script name arguments r)

  IsApproved-if :
      (b : Bool) (x y : Execution)
      → IsApproved a x
      → IsApproved a y
      → IsApproved a (if b then x else y)
  IsApproved-if true x y hx hy = hx
  IsApproved-if false x y hx hy = hy

  abbrev dispatched : ToolDescriptor → Execution
  dispatched d =
      gated a name arguments
        (if is_empty (tool_mitl_category d) then codes "execute" else tool_mitl_category d)
        (run_descriptor a d name arguments)

  -- The guards in front of the gate run nothing.
  dispatch_cases :
      (d : ToolDescriptor)
      → ((dispatch_descriptor a d name arguments).ran ≡ none)
        ⊎ (dispatch_descriptor a d name arguments ≡ dispatched d)
  unfolding dispatch_descriptor
  dispatch_cases d = ground arith

  IsApproved-descriptor :
      (d : ToolDescriptor) → IsApproved a (dispatch_descriptor a d name arguments)
  IsApproved-descriptor d = elim (dispatch_cases d) [
    | inl e ↦ IsApproved-nothing a _ e
    | inr e ↦ rw e (
        IsApproved-gated a name arguments _ (run_descriptor a d name arguments)
          (unfold run_descriptor in inr refl))
  ]

  IsApproved-with : (d : Option ToolDescriptor) → IsApproved a (execute_with a name arguments d)
  unfolding execute_with
  IsApproved-with (some d) = IsApproved-descriptor d
  IsApproved-with none =
      let split = split_mcp_name (drop (length mcp_prefix) name) (keys a.guardians) in
      IsApproved-if (has_prefix name mcp_prefix) _ _
        (IsApproved-gated a name arguments (codes "execute") (call_guardian a name arguments split)
          (RunsOnly-guardian split))
        (IsApproved-shell (registry_get a name))

execute_tool-IsApproved : (a : Agent) (tc : ToolCall) → IsApproved a (execute_tool a tc)
unfolding execute_tool
execute_tool-IsApproved a tc = IsApproved-with a _ _ (tool_descriptor_by_name a _)

-- Whatever tool a call names, and wherever it is found: if something is run and its name needs an
-- approval, then the approval handler, where there is one, approved a request for that name with
-- exactly the arguments that are run.
pub execute_tool_approved :
    (a : Agent) (tc : ToolCall) (name arguments : Text) (h : MitlRequest → MitlResponse)
    → (execute_tool a tc).ran ≡ some (name, arguments)
    → is_tool_mitl_required a name ≡ true
    → a.mitl_handler ≡ some h
    → (category : Text) × ((h (request name arguments category)).approved ≡ true)
execute_tool_approved a tc = (execute_tool-IsApproved a tc).at
