-- ===== src/Agent/Loop/Protocol.antt =====
-- The records that a turn leaves (app/internal/agent/agent.go): every tool call that an assistant
-- record carries is answered by the tool records that follow it.
use shell_agent_v.Base.{
  ℕ, zero, suc, ◌≡◌, refl, Bool, true, false, not, ◌&&◌, ◌||◌, Option, none, some, List, [], ◌∷◌,
  ◌++◌, map, if◌then◌else◌, Bool-cases, inl, inr,
}
use shell_agent_v.Text.{Text, codes, ◌=ᵗ◌}
use shell_agent_v.Text.Laws.{text_eq_refl}
use shell_agent_v.Session.{
  Session, Record, ToolCallRecord, add_user_message, add_assistant_message,
  add_assistant_message_with_tool_calls, add_report_message, add_tool_result,
}
use shell_agent_v.Llm.{ToolCall, Message, Response}
use shell_agent_v.Agent.Loop.{
  Env, LoopState, Outcome, again, receive, proceed, finished, Reply, PendingReport, is_empty,
  set_last_object_ids, attach_to_last, attach, flush_pending_report, to_call_record, execute_call,
  execute_calls, final_response, handle_response, prepare, send_request, run_round, run_rounds,
  agent_loop,
}

-- A tool record answers the first call that is open.
pub answer : Record → List ToolCallRecord → Option (List ToolCallRecord)
answer r [] = none
answer r (c ∷ open_calls) =
    if r.tool_call_id =ᵗ c.id && r.tool_name =ᵗ c.name then some open_calls else none

-- Any other record may only stand where no call is open, and opens its own calls.
pub opens : Record → List ToolCallRecord → Option (List ToolCallRecord)
opens r [] = some r.tool_calls
opens r (c ∷ open_calls) = none

-- The calls that are open after a record; a report may stand anywhere.
pub after_record : Record → List ToolCallRecord → Option (List ToolCallRecord)
unfolding answer opens ◌=ᵗ◌
after_record r open_calls =
    if r.role =ᵗ codes "tool"
    then answer r open_calls
    else if r.role =ᵗ codes "report"
    then some open_calls
    else opens r open_calls

abbrev after : Option (List ToolCallRecord) → Record → Option (List ToolCallRecord)
after none r = none
after (some open_calls) r = after_record r open_calls

-- The calls that are open after a list of records, or `none` where the order is broken.
unfoldable pub open_after :
    Option (List ToolCallRecord) → List Record → Option (List ToolCallRecord)
unfolding after_record
open_after open_calls [] = open_calls
open_after open_calls (r ∷ rs) = open_after (after open_calls r) rs

abbrev pub AllAnswered : List Record → Type 0
AllAnswered rs = open_after (some []) rs ≡ some []

open_after-append :
    (o : Option (List ToolCallRecord)) (xs ys : List Record)
    → open_after o (xs ++ ys) ≡ open_after (open_after o xs) ys
unfolding open_after
open_after-append o [] ys = refl
open_after-append o (x ∷ xs) ys = open_after-append (after o x) xs ys

-- One record more.
open_after-snoc :
    (rs : List Record) (r : Record) {o : List ToolCallRecord}
    → open_after (some []) rs ≡ some o
    → open_after (some []) (rs ++ r ∷ []) ≡ after_record r o
unfolding open_after
open_after-snoc rs r h = rw (open_after-append (some []) rs (r ∷ []), h)

module _ {o : List ToolCallRecord} (s : Session) (h : open_after (some []) s.records ≡ some o) where
  after_tool_result :
      (now : ℕ) (c : ToolCallRecord) (rest : List ToolCallRecord) (result status : Text)
      → o ≡ c ∷ rest
      → open_after (some []) (add_tool_result now c.id c.name result status s).records ≡ some rest
  unfolding add_tool_result after_record
  after_tool_result now c rest result status e =
      rw (open_after-snoc s.records _ h, e, text_eq_refl c.id, text_eq_refl c.name)

  after_report :
      (now : ℕ) (title content : Text)
      → open_after (some []) (add_report_message now title content s).records ≡ some o
  unfolding add_report_message after_record
  after_report now title content = rw (open_after-snoc s.records _ h)

  after_assistant :
      (now : ℕ) (content : Text) (calls : List ToolCallRecord) (sigs : List Text) (sig : Text)
      → o ≡ []
      → open_after
          (some [])
          (add_assistant_message_with_tool_calls now content calls sigs sig s).records
        ≡ some calls
  unfolding add_assistant_message_with_tool_calls after_record
  after_assistant now content calls sigs sig e = rw (open_after-snoc s.records _ h, e)

  after_final :
      (now : ℕ) (content : Text)
      → o ≡ []
      → AllAnswered (add_assistant_message now content s).records
  unfolding add_assistant_message after_record
  after_final now content e = rw (open_after-snoc s.records _ h, e)

  after_user :
      (now : ℕ) (content : Text) → o ≡ [] → AllAnswered (add_user_message now content s).records
  unfolding add_user_message after_record
  after_user now content e = rw (open_after-snoc s.records _ h, e)

-- The attachments of a record are not looked at.
open_after-set_last :
    (ids : List Text) (o : Option (List ToolCallRecord)) (rs : List Record)
    → open_after o (set_last_object_ids ids rs) ≡ open_after o rs
unfolding open_after set_last_object_ids
open_after-set_last ids o [] = refl
open_after-set_last ids none (r ∷ []) = refl
open_after-set_last ids (some p) (r ∷ []) = refl
open_after-set_last ids o (r ∷ s ∷ rs) = open_after-set_last ids (after o r) (s ∷ rs)

open_after-attach :
    (ids urls docs : List Text) (o : Option (List ToolCallRecord)) (rs : List Record)
    → open_after o (attach_to_last ids urls docs rs) ≡ open_after o rs
unfolding open_after attach_to_last
open_after-attach ids urls docs o [] = refl
open_after-attach ids urls docs none (r ∷ []) = refl
open_after-attach ids urls docs (some p) (r ∷ []) = refl
open_after-attach ids urls docs o (r ∷ s ∷ rs) =
    open_after-attach ids urls docs (after o r) (s ∷ rs)

attach-AllAnswered :
    (ids urls docs : List Text) (s : Session)
    → AllAnswered s.records
    → AllAnswered (attach ids urls docs s).records
unfolding attach
attach-AllAnswered ids urls docs s h =
    elim (Bool-cases (not (is_empty ids) || not (is_empty urls) || not (is_empty docs))) [
      | inl e ↦ rw (e, open_after-attach) h
      | inr e ↦ rw e h
    ]

after_flush :
    (now : ℕ) (p : Option PendingReport) (s : Session) {o : List ToolCallRecord}
    → open_after (some []) s.records ≡ some o
    → open_after (some []) (flush_pending_report now p s).records ≡ some o
unfolding flush_pending_report
after_flush now none s h = h
after_flush now (some p) s h = elim (Bool-cases (is_empty p.object_id)) [
  | inl e ↦ rw e (after_report s h now p.title p.content)
  | inr e ↦ rw (e, open_after-set_last) (after_report s h now p.title p.content)
]

-- What an outcome of a round says of the records.
abbrev Answered : Outcome → Type 0
Answered (again s) = AllAnswered s.session.records
Answered (finished reply s) = AllAnswered s.session.records

if-Answered :
    (b : Bool) (x y : Outcome)
    → (b ≡ true → Answered x)
    → (b ≡ false → Answered y)
    → Answered (if b then x else y)
if-Answered true x y hx hy = hx refl
if-Answered false x y hx hy = hy refl

module _ (env : Env) where
  after_call :
      (tc : ToolCall) (rest : List ToolCallRecord) (s : LoopState)
      → open_after (some []) s.session.records ≡ some (to_call_record tc ∷ rest)
      → open_after (some []) (execute_call env tc s).session.records ≡ some rest
  unfolding execute_call to_call_record
  after_call tc rest s h =
      after_flush _ _ _ (after_tool_result s.session h _ (to_call_record tc) rest _ _ refl)

  after_calls :
      (tcs : List ToolCall) (s : LoopState)
      → open_after (some []) s.session.records ≡ some (map to_call_record tcs)
      → AllAnswered (execute_calls env tcs s).session.records
  unfolding execute_calls
  after_calls [] s h = h
  after_calls (tc ∷ tcs) s h = after_calls tcs (execute_call env tc s) (after_call tc _ s h)

  final_response-Answered :
      (content : Text) (s : LoopState)
      → AllAnswered s.session.records
      → Answered (final_response env content s)
  unfolding final_response
  final_response-Answered content s h =
      if-Answered (not (is_empty content)) _ _ (λ _. after_final s.session h _ content refl)
        (λ _. if-Answered (not s.empty_retry_done) _ _ (λ _. h) (λ _. h))

  handle_response-Answered :
      (resp : Response) (s : LoopState)
      → AllAnswered s.session.records
      → Answered (handle_response env resp s)
  unfolding handle_response
  handle_response-Answered resp s h =
      if-Answered (is_empty resp.tool_calls) _ _ (λ _. final_response-Answered _ _ h)
        (λ _. after_calls resp.tool_calls _ (after_assistant s.session h _ _ _ _ _ refl))

  receive-Answered :
      (resp : Option Response) (s : LoopState)
      → AllAnswered s.session.records
      → Answered (receive env resp s)
  receive-Answered none s h = h
  receive-Answered (some resp) s h = handle_response-Answered resp s h

  send_request-Answered :
      (round : ℕ) (built : Option (List Message)) (s : LoopState)
      → AllAnswered s.session.records
      → Answered (send_request env round built s)
  unfolding send_request prepare
  send_request-Answered round none s h = h
  send_request-Answered round (some messages) s h = receive-Answered _ _ h

  run_round-Answered :
      (round : ℕ) (s : LoopState) → AllAnswered s.session.records → Answered (run_round env round s)
  unfolding run_round
  run_round-Answered round s h =
      if-Answered (env.cancelled round) _ _ (λ _. h)
        (λ _. send_request-Answered round (env.build round s.session) s h)

  proceed-Answered :
      (next : LoopState → Reply × LoopState) (out : Outcome)
      → ((s : LoopState) → AllAnswered s.session.records → AllAnswered (next s).1.session.records)
      → Answered out
      → AllAnswered (proceed env next out).1.session.records
  proceed-Answered next (again s) k h = k s h
  proceed-Answered next (finished reply s) k h = h

  run_rounds-Answered :
      (left round : ℕ) (s : LoopState)
      → AllAnswered s.session.records
      → AllAnswered (run_rounds env left round s).1.session.records
  unfolding run_rounds
  run_rounds-Answered zero round s h = h
  run_rounds-Answered (suc left) round s h =
      proceed-Answered (run_rounds env left (suc round)) (run_round env round s)
        (run_rounds-Answered left (suc round)) (run_round-Answered round s h)

  -- If in the session's records every tool call is answered, so it is after a turn, whatever the
  -- backend, the tools and the cancellation do and however the turn ends: each assistant record that
  -- carries tool calls is followed by exactly their results, in their order, before any record but a
  -- report.
  pub agent_loop-AllAnswered :
      (user_message : Text) (object_ids data_urls document_ids : List Text) (session : Session)
      → AllAnswered session.records
      → AllAnswered
          (agent_loop env user_message object_ids data_urls document_ids session).1.session.records
  unfolding agent_loop
  agent_loop-AllAnswered user_message ids urls docs session h =
      run_rounds-Answered env.max_rounds 0 _
        (attach-AllAnswered ids urls docs _ (after_user session h _ user_message refl))
