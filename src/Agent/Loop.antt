-- ===== src/Agent/Loop.antt =====
-- agentLoop (app/internal/agent/agent.go): one user message, then rounds of an LLM call and the
-- execution of the tools that it asks for. Logging, the activity events, the saves and the memory
-- lifecycle, which do not change the loop's own state, are left out.
pub mod Protocol
pub mod Rounds
pub mod Hints
use shell_agent_v.Base.{
  ℕ, zero, suc, ◌+◌, Bool, true, false, not, ◌&&◌, ◌||◌, Option, none, some, List, [], ◌∷◌, ◌++◌,
  map, length, if◌then◌else◌,
}
use shell_agent_v.Text.{Text, codes}
use shell_agent_v.Session.{
  Session, Record, ToolCallRecord, add_user_message, add_assistant_message,
  add_assistant_message_with_tool_calls, add_report_message, add_tool_result,
}
use shell_agent_v.Llm.{ToolCall, Message, Response, message}
use shell_agent_v.Agent.LoopDetect.{
  ToolCallTrace, Status, status_text, push_tool_call_trace, detect_stuck_loop, loop_hint_for,
  empty_response_nudge,
}

pub record PendingReport : Type 0 where
  pub title : Text
  pub content : Text
  pub object_id : Text

pub record ToolOutcome : Type 0 where
  pub result : Text
  pub status : Status
  pub report : Option PendingReport

-- What the loop asks of the rest of the program: the rounds that the settings allow, whether the
-- context is cancelled at the head of a round, the time when a record is appended, buildMessagesV2
-- (`none` for its error), the backend's Chat (`none` for its error), the cleaning of a response, and
-- executeTool, with the report that the tool leaves behind.
pub record Env : Type 0 where
  pub max_rounds : ℕ
  pub cancelled : ℕ → Bool
  pub now : ℕ → ℕ
  pub build : ℕ → Session → Option (List Message)
  pub chat : ℕ → List Message → Option Response
  pub clean : Text → Text
  pub execute : Session → ToolCall → ToolOutcome

-- One request to the backend, and which transient notes were put in front of it.
pub record Request : Type 0 where
  pub messages : List Message
  pub hinted : Option Text
  pub nudged : Bool

-- The session and the local variables of agentLoop. The token counts are those of this turn, and
-- `requests` logs the calls of Chat, last first.
pub record LoopState : Type 0 where
  pub session : Session
  pub recent : List ToolCallTrace
  pub empty_retry_done : Bool
  pub inject_empty_nudge : Bool
  pub prompt_tokens : ℕ
  pub output_tokens : ℕ
  pub requests : List Request

abbrev pub first_state : Session → LoopState
first_state session = record {
  session = session;
  recent = [];
  empty_retry_done = false;
  inject_empty_nudge = false;
  prompt_tokens = 0;
  output_tokens = 0;
  requests = [];
}

pub data Reply : Type 0 where
  reply_text : Text → Reply
  build_error : Reply
  llm_error : Reply

pub data Outcome : Type 0 where
  again : LoopState → Outcome
  finished : Reply → LoopState → Outcome

abbrev pub is_empty {ℓ} : {A : Type ℓ} → List A → Bool
is_empty [] = true
is_empty (x ∷ xs) = false

-- `last.ObjectIDs = …` on the record that was appended last.
unfoldable pub set_last_object_ids : List Text → List Record → List Record
set_last_object_ids ids [] = []
set_last_object_ids ids (r ∷ []) = record r { object_ids = ids } ∷ []
set_last_object_ids ids (r ∷ s ∷ rs) = r ∷ set_last_object_ids ids (s ∷ rs)

unfoldable pub attach_to_last : List Text → List Text → List Text → List Record → List Record
attach_to_last ids urls docs [] = []
attach_to_last ids urls docs (r ∷ []) =
    record r { object_ids = ids; image_urls = urls; document_ids = docs } ∷ []
attach_to_last ids urls docs (r ∷ s ∷ rs) = r ∷ attach_to_last ids urls docs (s ∷ rs)

unfoldable pub attach : List Text → List Text → List Text → Session → Session
attach object_ids data_urls document_ids s =
    if not (is_empty object_ids) || not (is_empty data_urls) || not (is_empty document_ids)
    then record s { records = attach_to_last object_ids data_urls document_ids s.records }
    else s

unfoldable pub flush_pending_report : ℕ → Option PendingReport → Session → Session
unfolding add_report_message set_last_object_ids
flush_pending_report now none s = s
flush_pending_report now (some p) s =
    let s' = add_report_message now p.title p.content s in
    if is_empty p.object_id
    then s'
    else record s' { records = set_last_object_ids (p.object_id ∷ []) s'.records }

unfoldable pub to_call_record : ToolCall → ToolCallRecord
to_call_record tc = record {
  id = tc.id;
  name = tc.name;
  arguments = tc.arguments;
  thought_signature = tc.thought_signature;
}

module _ (env : Env) where
  abbrev pub time_of : Session → ℕ
  time_of s = env.now (length s.records)

  -- One iteration of the loop over the tool calls of a response.
  unfoldable pub execute_call : ToolCall → LoopState → LoopState
  execute_call tc s =
      let out = env.execute s.session tc in
      let answered =
        add_tool_result (time_of s.session) tc.id tc.name out.result (status_text out.status)
          s.session in
      record s {
        session = flush_pending_report (time_of answered) out.report answered;
        recent = push_tool_call_trace s.recent (record { name = tc.name; status = out.status });
      }

  unfoldable pub execute_calls : List ToolCall → LoopState → LoopState
  execute_calls [] s = s
  execute_calls (tc ∷ tcs) s = execute_calls tcs (execute_call tc s)

  abbrev pub hint_messages : Option Text → List Message
  hint_messages none = []
  hint_messages (some name) = message (codes "system") (loop_hint_for name) ∷ []

  abbrev pub nudge_messages : Bool → List Message
  nudge_messages false = []
  nudge_messages true = message (codes "system") empty_response_nudge ∷ []

  abbrev pub reset_if_stuck : Option Text → List ToolCallTrace → List ToolCallTrace
  reset_if_stuck none recent = recent
  reset_if_stuck (some name) recent = []

  -- The transient notes: the loop hint empties the window, and the nudge is used up.
  unfoldable pub prepare : List Message → LoopState → LoopState
  prepare messages s =
      let stuck = detect_stuck_loop s.recent in
      record s {
        recent = reset_if_stuck stuck s.recent;
        inject_empty_nudge = false;
        requests =
            record {
              messages = nudge_messages s.inject_empty_nudge ++ (hint_messages stuck ++ messages);
              hinted = stuck;
              nudged = s.inject_empty_nudge;
            }
            ∷ s.requests;
      }

  -- A response that asks for no tool.
  unfoldable pub final_response : Text → LoopState → Outcome
  final_response content s =
      if not (is_empty content)
      then (finished (reply_text content)
          (record s { session = add_assistant_message (time_of s.session) content s.session }))
      else if not s.empty_retry_done
      then again (record s { empty_retry_done = true; inject_empty_nudge = true })
      else finished (reply_text content) s

  unfoldable pub handle_response : Response → LoopState → Outcome
  handle_response resp s =
      let content = env.clean resp.content in
      let s' : LoopState = record s {
        prompt_tokens = s.prompt_tokens + resp.prompt_tokens;
        output_tokens = s.output_tokens + resp.output_tokens;
      } in
      if is_empty resp.tool_calls
      then final_response content s'
      else again (
          execute_calls resp.tool_calls (record s' {
            session =
                add_assistant_message_with_tool_calls (time_of s.session) content
                  (map to_call_record resp.tool_calls) resp.thought_part_sigs resp.text_part_sig
                  s.session;
          }))

  abbrev pub last_request : LoopState → List Message
  last_request s = elim s.requests [ [] ↦ [] | r ∷ rs ↦ r.messages ]

  abbrev pub receive : Option Response → LoopState → Outcome
  receive none s = finished llm_error s
  receive (some resp) s = handle_response resp s

  unfoldable pub send_request : ℕ → Option (List Message) → LoopState → Outcome
  send_request round none s = finished build_error s
  send_request round (some messages) s =
      let s' = prepare messages s in receive (env.chat round (last_request s')) s'

  unfoldable pub run_round : ℕ → LoopState → Outcome
  run_round round s =
      if env.cancelled round
      then finished (reply_text (codes "(Cancelled)")) s
      else send_request round (env.build round s.session) s

  abbrev pub proceed : (LoopState → Reply × LoopState) → Outcome → Reply × LoopState
  proceed next (again s) = next s
  proceed next (finished reply s) = (reply, s)

  -- `for round := range maxRounds`: the rounds left and the number of this one.
  unfoldable pub run_rounds : ℕ → ℕ → LoopState → Reply × LoopState
  run_rounds zero round s = (reply_text (codes "(Max tool rounds reached)"), s)
  run_rounds (suc left) round s = proceed (run_rounds left (suc round)) (run_round round s)

  unfoldable pub agent_loop : Text → List Text → List Text → List Text → Session → Reply × LoopState
  agent_loop user_message object_ids data_urls document_ids session = run_rounds env.max_rounds 0 (
      first_state (
        attach object_ids data_urls document_ids
          (add_user_message (time_of session) user_message session)))
