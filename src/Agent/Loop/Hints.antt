-- ===== src/Agent/Loop/Hints.antt =====
-- When a turn gives the model the hint that it is stuck (agentLoop in app/internal/agent/agent.go,
-- loop_detect.go): the window of the last calls is emptied by every hint.
use shell_agent_v.Base.{Bool, false, ◌&&◌, Option, none, List, [], ◌∷◌, ◌++◌, if◌then◌else◌}
use shell_agent_v.Text.{Text, ◌=ᵗ◌}
use shell_agent_v.Llm.{Message}
use shell_agent_v.Agent.LoopDetect.{ToolCallTrace, is_error}
use shell_agent_v.Agent.LoopDetect.Window.{push_all, last_three}
use shell_agent_v.Agent.Loop.{Env, LoopState, Request, prepare}

-- A round: the messages of its request, and the tool calls that came before it since the last one.
abbrev pub Round : Type 0
Round = List Message × List ToolCallTrace

-- The start of a round, the calls before it pushed in order.
unfoldable pub begin_round : Env → LoopState → Round → LoopState
begin_round env s (messages, calls) =
    prepare env messages (record s { recent = push_all s.recent calls })

unfoldable pub begin_rounds : Env → LoopState → List Round → LoopState
begin_rounds env s [] = s
begin_rounds env s (r ∷ rs) = begin_rounds env (begin_round env s r) rs

-- The hint in the newest request.
abbrev pub newest_hint : List Request → Option Text
newest_hint [] = none
newest_hint (q ∷ qs) = q.hinted

-- Three failed calls of one tool.
unfoldable pub is_stuck : List ToolCallTrace → Bool
is_stuck (a ∷ b ∷ c ∷ []) =
    is_error a.status
    && (is_error b.status && (is_error c.status && (b.name =ᵗ a.name && c.name =ᵗ a.name)))
is_stuck _ = false

-- The calls since the last round that found the last three calls stuck.
unfoldable pub calls_since : List ToolCallTrace → List Round → List ToolCallTrace
calls_since seen [] = seen
calls_since seen ((messages, calls) ∷ rs) =
    calls_since (if is_stuck (last_three (seen ++ calls)) then [] else seen ++ calls) rs
