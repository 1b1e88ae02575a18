-- ===== src/Agent/Fsm/Invariant.antt =====
-- The invariant of the state machine over every interleaving (app/internal/agent/agent.go).
use shell_agent_v.Base.{
  ℕ, ◌+◌, ◌<◌, ◌≡◌, Bool, true, false, Option, none, some, List, arith, if◌then◌else◌,
}
use shell_agent_v.Agent.Fsm.{QueuedSend, Fsm, is_idle, is_some, Phase, snapshot}
use shell_agent_v.Agent.Fsm.World.{
  World, start, Origin, user, dispatch, Action, send_pending, command_end, perform, do_send,
  send_picked, pick, Reach, here, next,
}

-- How many goroutines are inside the busy window.
abbrev pub holders : World → ℕ
holders w =
    w.user_commands + w.user_turns + w.dispatched_commands + w.dispatched_turns + w.lifecycles

pub record IsConsistent (w : World) : Type 0 where
  pub exclusive : holders w ≡ (if is_idle w.agent.state then 0 else 1)
  pub queue_needs_flag : is_some w.agent.queued_send ≡ true → w.agent.extraction_in_flight ≡ true
  pub flag_means_idle : w.agent.extraction_in_flight ≡ true → is_idle w.agent.state ≡ true
  pub flag_means_live : w.agent.extraction_in_flight ≡ true → 0 < w.extractions

do_send-IsConsistent :
    (o : Origin) (q : QueuedSend) (w : World) → IsConsistent w → IsConsistent (do_send o q w)
unfolding do_send
do_send-IsConsistent user q w h = ground arith
do_send-IsConsistent dispatch q w h = ground arith

-- `pending` is in no field of the invariant.
send_picked-IsConsistent :
    (p : Option (QueuedSend × List QueuedSend)) (w : World) {w' : World}
    → IsConsistent w
    → send_picked p w ≡ some w'
    → IsConsistent w'
unfolding send_picked
send_picked-IsConsistent none w h e = ground arith
send_picked-IsConsistent (some (q, rest)) w h e =
    ground (arith, do_send-IsConsistent dispatch q (record w { pending = rest }))

perform-IsConsistent :
    (act : Action) (w : World) {w' : World}
    → IsConsistent w
    → perform act w ≡ some w'
    → IsConsistent w'
unfolding perform
perform-IsConsistent (command_end user) w h e = ground arith
perform-IsConsistent (send_pending i) w h e = send_picked-IsConsistent (pick i w.pending) w h e
perform-IsConsistent _ w h e = ground arith

start-IsConsistent : (base : Bool) → IsConsistent (start base)
start-IsConsistent base = ground arith

-- From start-up, after any sequence of the actions: the goroutines inside the busy window are one
-- while the state is busy and none while it is idle; a SEND is held only while the extraction flag
-- is set; and while the flag is set the state is idle and an extraction goroutine is running.
pub Reach-IsConsistent : (base : Bool) {w : World} → Reach (start base) w → IsConsistent w
Reach-IsConsistent base here = start-IsConsistent base
Reach-IsConsistent base (next {w = w} act r e) =
    perform-IsConsistent act w (Reach-IsConsistent base r) e

-- What the phase of a snapshot says of the three fields.
abbrev pub PhaseMeans : Phase → Fsm → Type 0
PhaseMeans Phase.busy a =
    (is_idle a.state ≡ false) × (a.extraction_in_flight ≡ false) × (a.queued_send ≡ none)
PhaseMeans Phase.queued a =
    (is_idle a.state ≡ true) × (a.extraction_in_flight ≡ true) × (is_some a.queued_send ≡ true)
PhaseMeans Phase.extracting a =
    (is_idle a.state ≡ true) × (a.extraction_in_flight ≡ true) × (a.queued_send ≡ none)
PhaseMeans Phase.ready a =
    (is_idle a.state ≡ true) × (a.extraction_in_flight ≡ false) × (a.queued_send ≡ none)

snapshot-of_consistent : (w : World) → IsConsistent w → PhaseMeans (snapshot w.agent).phase w.agent
unfolding snapshot
snapshot-of_consistent w h = ground arith

-- In every reachable state the phase of Snapshot determines the three fields of the state machine:
-- no combination of them is hidden behind the order in which Snapshot tests them.
pub snapshot-faithful :
    (base : Bool) {w : World} → Reach (start base) w → PhaseMeans (snapshot w.agent).phase w.agent
snapshot-faithful base {w} r = snapshot-of_consistent w (Reach-IsConsistent base r)
