-- ===== src/Agent/LoopDetect/Window.antt =====
-- The ring buffer of app/internal/agent/loop_detect.go holds the last three calls, and the detector
-- fires on three failures of one tool.
use shell_agent_v.Base.{
  suc, ◌-◌, ◌≤◌, ◌≡◌, ◌↔◌, refl, some, List, [], ◌∷◌, ◌++◌, length, drop, arith,
}
use shell_agent_v.Text.{Text}
use shell_agent_v.Text.Laws.{text_eq_iff, text_eq_refl}
use shell_agent_v.Agent.LoopDetect.{
  ToolCallTrace, error, push_tool_call_trace, detect_stuck_loop, recent_tool_window,
}

-- The buffer after a sequence of calls.
unfoldable pub push_all : List ToolCallTrace → List ToolCallTrace → List ToolCallTrace
push_all buf [] = buf
push_all buf (t ∷ ts) = push_all (push_tool_call_trace buf t) ts

abbrev pub last_three : List ToolCallTrace → List ToolCallTrace
last_three ts = drop (length ts - recent_tool_window) ts

last_three-cons :
    (a b c d : ToolCallTrace) (ts : List ToolCallTrace)
    → last_three (a ∷ b ∷ c ∷ d ∷ ts) ≡ last_three (b ∷ c ∷ d ∷ ts)
last_three-cons a b c d ts =
    let e : length (a ∷ b ∷ c ∷ d ∷ ts) - 3 ≡ suc (length (b ∷ c ∷ d ∷ ts) - 3) = omega arith in
    rw e refl

pub push_all-last_three :
    (buf ts : List ToolCallTrace)
    → length buf ≤ recent_tool_window
    → push_all buf ts ≡ last_three (buf ++ ts)
unfolding push_all push_tool_call_trace
push_all-last_three [] [] h = refl
push_all-last_three (a ∷ []) [] h = refl
push_all-last_three (a ∷ b ∷ []) [] h = refl
push_all-last_three (a ∷ b ∷ c ∷ []) [] h = refl
push_all-last_three [] (t ∷ ts) h = push_all-last_three (t ∷ []) ts (omega arith)
push_all-last_three (a ∷ []) (t ∷ ts) h = push_all-last_three (a ∷ t ∷ []) ts (omega arith)
push_all-last_three (a ∷ b ∷ []) (t ∷ ts) h = push_all-last_three (a ∷ b ∷ t ∷ []) ts (omega arith)
push_all-last_three (a ∷ b ∷ c ∷ []) (t ∷ ts) h =
    rw (last_three-cons a b c t ts) (push_all-last_three (b ∷ c ∷ t ∷ []) ts (omega arith))
push_all-last_three (a ∷ b ∷ c ∷ d ∷ r) ts h = absurd (omega arith)

abbrev pub failed : Text → ToolCallTrace
failed name = record { name = name; status = error }

abbrev pub three_failed : Text → List ToolCallTrace
three_failed name = failed name ∷ failed name ∷ failed name ∷ []

detect→three :
    (name : Text) (buf : List ToolCallTrace)
    → detect_stuck_loop buf ≡ some name
    → buf ≡ three_failed name
unfolding detect_stuck_loop
detect→three name [] h = cc
detect→three name (a ∷ []) h = cc
detect→three name (a ∷ b ∷ []) h = cc
detect→three name (a ∷ b ∷ c ∷ []) h =
    ground (arith, text_eq_iff b.name a.name, text_eq_iff c.name a.name)
detect→three name (a ∷ b ∷ c ∷ d ∷ r) h = ground arith

three→detect : (name : Text) → detect_stuck_loop (three_failed name) ≡ some name
unfolding detect_stuck_loop
three→detect name = ground (arith, text_eq_refl name)

-- After any tool calls, pushed in order into an empty buffer, the detector reports a name
-- exactly when the last three calls are failed calls of that name.
pub detect_stuck_loop-push_all :
    (name : Text) (ts : List ToolCallTrace)
    → (detect_stuck_loop (push_all [] ts) ≡ some name) ↔ (last_three ts ≡ three_failed name)
detect_stuck_loop-push_all name ts =
    rw (push_all-last_three [] ts (omega arith))
      (detect→three name (last_three ts), λ e. rw e (three→detect name))
