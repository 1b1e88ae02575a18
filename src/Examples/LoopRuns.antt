-- ===== src/Examples/LoopRuns.antt =====
-- A turn in which a tool fails three times and the model then answers
-- (app/internal/agent/agent.go, loop_detect.go).
use shell_agent_v.Base.{
  ℕ, zero, suc, ◌≤◌, ◌≡◌, refl, false, Option, none, some, List, [], ◌∷◌, length,
}
use shell_agent_v.Text.{Text, codes, ◌=ᵗ◌}
use shell_agent_v.Session.{Session}
use shell_agent_v.Llm.{ToolCall, Response}
use shell_agent_v.Agent.LoopDetect.{ToolCallTrace, error}
use shell_agent_v.Agent.Loop.{Env, agent_loop}
use shell_agent_v.Agent.Loop.Hints.{Round, calls_since, is_stuck}
use shell_agent_v.Agent.Loop.Protocol.{open_after, AllAnswered, agent_loop-AllAnswered}
use shell_agent_v.Agent.Loop.Rounds.{nudges, Extends, agent_loop_bounds}

abbrev run_sql : ToolCall
run_sql = record {
  id = codes "t1";
  name = codes "query_sql";
  arguments = codes "{}";
  thought_signature = [];
}

abbrev answer_with : Text → List ToolCall → Response
answer_with content calls = record {
  content = content;
  tool_calls = calls;
  prompt_tokens = 10;
  output_tokens = 2;
  thought_part_sigs = [];
  text_part_sig = [];
}

-- Two rounds of a failing call, then an empty response, then the answer.
abbrev chat_at : ℕ → Option Response
chat_at zero = some (answer_with [] (run_sql ∷ run_sql ∷ []))
chat_at (suc zero) = some (answer_with [] (run_sql ∷ []))
chat_at (suc (suc zero)) = some (answer_with [] [])
chat_at (suc (suc (suc n))) = some (answer_with (codes "done") [])

abbrev failing : Env
failing = record {
  max_rounds = 5;
  cancelled = λ round. false;
  now = λ n. n;
  build = λ round s. some [];
  chat = λ round messages. chat_at round;
  clean = λ t. t;
  execute = λ s tc. record { result = codes "no such table"; status = error; report = none };
}

abbrev blank : Session
blank = record { id = codes "s"; title = []; is_private = false; records = []; profile_id = [] }

abbrev failed_call : ToolCallTrace
failed_call = record { name = codes "query_sql"; status = error }

nothing_open : AllAnswered []
unfolding open_after
nothing_open = refl

every_call_is_answered :
    AllAnswered (agent_loop failing (codes "count rows") [] [] [] blank).1.session.records
every_call_is_answered =
    agent_loop-AllAnswered failing (codes "count rows") [] [] [] blank nothing_open

turn_is_bounded :
    let s = (agent_loop failing (codes "count rows") [] [] [] blank).1 in
    (length s.requests ≤ 5) × (nudges s.requests ≤ 1) × Extends blank.records s.session.records
turn_is_bounded = agent_loop_bounds failing (codes "count rows") [] [] [] blank

abbrev stuck_round : Round
stuck_round = ([], failed_call ∷ failed_call ∷ failed_call ∷ [])

no_second_hint : calls_since [] (stuck_round ∷ []) ≡ []
unfolding calls_since is_stuck ◌=ᵗ◌
no_second_hint = refl
