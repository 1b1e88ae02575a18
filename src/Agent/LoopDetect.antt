-- ===== src/Agent/LoopDetect.antt =====
-- Detection of a model that retries one failing tool (app/internal/agent/loop_detect.go).
pub mod Window
use shell_agent_v.Base.{
  ℕ, ◌-◌, Bool, true, false, not, ◌||◌, Option, none, some, List, [], ◌∷◌, ◌++◌, length, drop, ltb,
  ◌==◌, if◌then◌else◌,
}
use shell_agent_v.Text.{Text, codes, utf8, ◌=ᵗ◌}

pub data Status : Type 0 where
  success error : Status

abbrev pub status_text : Status → Text
status_text success = codes "success"
status_text error = codes "error"

abbrev pub is_error : Status → Bool
is_error success = false
is_error error = true

abbrev pub recent_tool_window : ℕ
recent_tool_window = 3

pub record ToolCallTrace : Type 0 where
  pub name : Text
  pub status : Status

unfoldable pub push_tool_call_trace : List ToolCallTrace → ToolCallTrace → List ToolCallTrace
push_tool_call_trace buf t =
    let buf' : List ToolCallTrace = buf ++ t ∷ [] in
    if ltb recent_tool_window (length buf')
    then drop (length buf' - recent_tool_window) buf'
    else buf'

-- The loop over the window: every entry has the name and the error status.
unfoldable pub all_failed : Text → List ToolCallTrace → Bool
all_failed name [] = true
all_failed name (t ∷ buf) =
    if not (t.name =ᵗ name) || not (is_error t.status) then false else all_failed name buf

stuck_on : List ToolCallTrace → Option Text
unfolding all_failed
stuck_on [] = none
stuck_on (t ∷ buf) = if all_failed t.name (t ∷ buf) then some t.name else none

-- `some name` where the source returns the name and true.
unfoldable pub detect_stuck_loop : List ToolCallTrace → Option Text
unfolding stuck_on
detect_stuck_loop buf = if not (length buf == recent_tool_window) then none else stuck_on buf

pub loop_hint_for : Text → Text
loop_hint_for tool_name =
    codes "System note: you have called `"
    ++ (tool_name
        ++ utf8
            "` three times in a row and each call returned an error. Stop retrying with minor variations. Try a substantively different approach — for example, write the input to a file first and inspect it before re-running, or abandon this branch and ask the user for clarification.")

abbrev pub empty_response_nudge : Text
empty_response_nudge =
    codes
      "System note: your previous response was empty. Please briefly summarize the result of the tool calls for the user in one or two sentences."
