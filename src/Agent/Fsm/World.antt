-- ===== src/Agent/Fsm/World.antt =====
-- The goroutines around the state machine (app/internal/agent/agent.go) as a step relation: every
-- interleaving of the locked regions is a sequence of actions.
use shell_agent_v.Base.{
  ℕ, zero, suc, ◌+◌, ◌-◌, ◌≡◌, Bool, true, false, Option, none, some, List, [], ◌∷◌, length, ltb,
  ◌==◌, if◌then◌else◌,
}
use shell_agent_v.Agent.Fsm.{
  State, Fsm, QueuedSend, entry_queued, entry_busy, entry_started, is_command, send_enter,
  command_exit, post_response, extraction_cleanup, abort, lifecycle_enter, lifecycle_exit,
  load_session,
}

-- Who called SendWithAttachments: the user, or the goroutine that dispatches a queued SEND.
pub data Origin : Type 0 where
  user dispatch : Origin

-- How many goroutines stand where: slash commands and agent loops inside the busy window, for each
-- origin; extraction and title goroutines; lifecycle operations that have waited for the wait group,
-- and those that hold the busy state. `pending` holds the dispatched sends that have not reached
-- SendWithAttachments yet.
pub record World : Type 0 where
  pub agent : Fsm
  pub user_commands : ℕ
  pub user_turns : ℕ
  pub dispatched_commands : ℕ
  pub dispatched_turns : ℕ
  pub extractions : ℕ
  pub titles : ℕ
  pub waited : ℕ
  pub lifecycles : ℕ
  pub pending : List QueuedSend

abbrev pub start : Bool → World
start base = record {
  agent = record {
    state = State.idle;
    cancel = false;
    post_cancel = false;
    extraction_in_flight = false;
    queued_send = none;
    base_ctx = base;
  };
  user_commands = 0;
  user_turns = 0;
  dispatched_commands = 0;
  dispatched_turns = 0;
  extractions = 0;
  titles = 0;
  waited = 0;
  lifecycles = 0;
  pending = [];
}

-- The goroutine that has claimed the busy window runs a command or an agent loop.
unfoldable pub claim : Origin → Bool → World → World
claim user true w = record w { user_commands = w.user_commands + 1 }
claim user false w = record w { user_turns = w.user_turns + 1 }
claim dispatch true w = record w { dispatched_commands = w.dispatched_commands + 1 }
claim dispatch false w = record w { dispatched_turns = w.dispatched_turns + 1 }

-- SendWithAttachments up to the point where it returns or starts to run.
unfoldable pub do_send : Origin → QueuedSend → World → World
unfolding send_enter claim
do_send o q w =
    let (e, a, _) = send_enter q w.agent in
    let w' : World = record w { agent = a } in
    elim e [
      | entry_queued _ ↦ w'
      | entry_busy ↦ w'
      | entry_started ↦ claim o (is_command q.message) w'
    ]

-- The deferred postResponseTasks of an agent loop that returns: it starts the two goroutines.
unfoldable pub do_post_response : Bool → World → World
unfolding post_response
do_post_response extract_on w = record w {
  agent = (post_response extract_on w.agent).0;
  titles = w.titles + 1;
  extractions = if extract_on then w.extractions + 1 else w.extractions;
}

unfoldable pub pick {ℓ} : {A : Type ℓ} → ℕ → List A → Option (A × List A)
pick i [] = none
pick zero (x ∷ xs) = some (x, xs)
pick (suc i) (x ∷ xs) = elim (pick i xs) [ none ↦ none | some (y, ys) ↦ some (y, x ∷ ys) ]

abbrev pub enqueue : Option QueuedSend → List QueuedSend → List QueuedSend
enqueue none l = l
enqueue (some q) l = q ∷ l

pub data Action : Type 0 where
  -- a call of SendWithAttachments by the user, or by the i-th pending dispatch
  send : QueuedSend → Action
  send_pending : ℕ → Action
  -- the ends of a slash command and of an agent loop, the latter with autoExtractEnabled
  command_end : Origin → Action
  turn_end : Origin → Bool → Action
  -- the ends of the background goroutines
  extraction_end : Bool → Action
  title_end : Action
  press_abort : Action
  -- a lifecycle operation's postTasksWg.Wait returns, and what it does then
  wait_end : Action
  lifecycle_begin : Action
  lifecycle_end : Action
  load : Action

-- What postTasksWg counts.
abbrev pub wait_group : World → ℕ
wait_group w =
    w.extractions + w.titles + length w.pending + w.dispatched_commands + w.dispatched_turns

unfoldable pub send_picked : Option (QueuedSend × List QueuedSend) → World → Option World
unfolding do_send
send_picked none w = none
send_picked (some (q, rest)) w = some (do_send dispatch q (record w { pending = rest }))

-- `none` where the action is not possible.
unfoldable pub perform : Action → World → Option World
unfolding send_picked do_send do_post_response extraction_cleanup abort command_exit lifecycle_enter
    lifecycle_exit load_session
perform (send q) w = some (do_send user q w)
perform (send_pending i) w = send_picked (pick i w.pending) w
perform (command_end user) w =
    if ltb 0 w.user_commands
    then some (record w { agent = command_exit w.agent; user_commands = w.user_commands - 1 })
    else none
perform (command_end dispatch) w =
    if ltb 0 w.dispatched_commands
    then some
        (record w { agent = command_exit w.agent; dispatched_commands = w.dispatched_commands - 1 })
    else none
perform (turn_end user on) w =
    if ltb 0 w.user_turns
    then some (do_post_response on (record w { user_turns = w.user_turns - 1 }))
    else none
perform (turn_end dispatch on) w =
    if ltb 0 w.dispatched_turns
    then some (do_post_response on (record w { dispatched_turns = w.dispatched_turns - 1 }))
    else none
perform (extraction_end success) w =
    if ltb 0 w.extractions
    then (let (d, a, _) = extraction_cleanup success w.agent in
        some
          (record w { agent = a; extractions = w.extractions - 1; pending = enqueue d w.pending }))
    else none
perform title_end w = if ltb 0 w.titles then some (record w { titles = w.titles - 1 }) else none
perform press_abort w = some (record w { agent = (abort w.agent).0 })
perform wait_end w = if wait_group w == 0 then some (record w { waited = w.waited + 1 }) else none
perform lifecycle_begin w =
    if ltb 0 w.waited
    then elim (lifecycle_enter w.agent) [
      | none ↦ some (record w { waited = w.waited - 1 })
      | some a ↦ some (record w { agent = a; waited = w.waited - 1; lifecycles = w.lifecycles + 1 })
    ]
    else none
perform lifecycle_end w =
    if ltb 0 w.lifecycles
    then some (record w { agent = lifecycle_exit w.agent; lifecycles = w.lifecycles - 1 })
    else none
perform load w =
    if ltb 0 w.waited
    then elim (load_session w.agent) [
      | none ↦ some (record w { waited = w.waited - 1 })
      | some a ↦ some (record w { agent = a; waited = w.waited - 1 })
    ]
    else none

pub data Reach (s : World) : World → Type 0 where
  here : Reach s s
  next : {w w' : World} (act : Action) → Reach s w → perform act w ≡ some w' → Reach s w'
