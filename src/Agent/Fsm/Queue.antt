-- ===== src/Agent/Fsm/Queue.antt =====
-- What becomes of a SEND that arrives while memory extraction runs (app/internal/agent/agent.go).
use shell_agent_v.Base.{ℕ, ◌+◌, ◌-◌, ◌≡◌, ◌≢◌, Bool, true, false, none, some, List, ◌∷◌, arith}
use shell_agent_v.Agent.Fsm.{
  State, QueuedSend, Fsm, Event, Entry, entry_queued, entry_busy, entry_started, is_idle,
  is_command, send_enter, abort, snapshot, Phase,
}
use shell_agent_v.Agent.Fsm.World.{
  World, start, send, send_pending, extraction_end, perform, pick, Reach, here, next,
}
use shell_agent_v.Agent.Fsm.Invariant.{Reach-IsConsistent}

-- The world after the running extraction ends: the slot is empty and its SEND is dispatched.
abbrev pub handed_over : QueuedSend → World → World
handed_over q w = record w {
  agent = record w.agent { extraction_in_flight = false; queued_send = none };
  extractions = w.extractions - 1;
  pending = q ∷ w.pending;
}

-- In every reachable state that holds a SEND, with the base context set, an extraction goroutine can
-- end, and when it does, with or without an error, exactly that SEND is handed to a dispatch
-- goroutine and the slot is free.
pub queued_is_handed_over :
    (w : World) (q : QueuedSend) (success : Bool)
    → Reach (start true) w
    → w.agent.queued_send ≡ some q
    → w.agent.base_ctx ≡ true
    → perform (extraction_end success) w ≡ some (handed_over q w)
unfolding perform
queued_is_handed_over w q success r e b =
    let c = Reach-IsConsistent true r in ground (arith, c.flag_means_live, c.queue_needs_flag)

-- What SendWithAttachments decides in a phase, and the state that it leaves.
abbrev pub Outcome : Phase → QueuedSend → Fsm → Entry × Fsm × List Event → Type 0
Outcome Phase.ready q a (e, a', _) =
    (e ≡ entry_started) × (a' ≡ record a { state = State.busy; cancel = true })
Outcome Phase.busy q a (e, a', _) = (e ≡ entry_busy) × (a' ≡ a)
Outcome Phase.extracting q a (e, a', _) =
    (e ≡ entry_queued q.queued_at) × (a' ≡ record a { queued_send = some q })
Outcome Phase.queued q a (e, a', _) =
    (e ≡ entry_queued q.queued_at) × (a' ≡ record a { queued_send = some q })

-- The phase that Snapshot shows decides what a SEND does, in every reachable state: in ready it
-- claims the busy state, in busy it is refused and changes nothing, and in extracting or queued it
-- takes the slot, replacing a SEND that was held, and changes nothing else.
pub send-by-phase :
    (base : Bool) (w : World) (q : QueuedSend)
    → Reach (start base) w
    → Outcome (snapshot w.agent).phase q w.agent (send_enter q w.agent)
unfolding send_enter snapshot
send-by-phase base w q r = let c = Reach-IsConsistent base r in ground (arith, c.flag_means_idle)

-- After an abort in any state a SEND is not held back, and no SEND that was held before is left.
pub abort-frees_send :
    (q : QueuedSend) (a : Fsm) (at : ℕ)
    → ((send_enter q (abort a).0).0 ≢ entry_queued at) × ((abort a).0.queued_send ≡ none)
unfolding send_enter abort
abort-frees_send q a at = ground arith

-- The world in which a SEND that was held is gone: another one runs, the slot is empty, and the
-- pending and the dispatched sends are those of before.
abbrev pub overtaken : World → World
overtaken w = record w {
  agent = record w.agent {
    state = State.busy;
    cancel = true;
    extraction_in_flight = false;
    queued_send = none;
  };
  extractions = w.extractions - 1;
  user_turns = w.user_turns + 1;
}

overtake_first :
    (w : World) (q m : QueuedSend)
    → is_idle w.agent.state ≡ true
    → is_command m.message ≡ false
    → perform (send m) (handed_over q w) ≡ some (record (overtaken w) { pending = q ∷ w.pending })
unfolding perform
overtake_first w q m i k = ground arith

overtake_second :
    (w : World) (q : QueuedSend)
    → perform (send_pending 0) (record (overtaken w) { pending = q ∷ w.pending })
      ≡ some (overtaken w)
unfolding perform pick
overtake_second w q = ground arith

-- A SEND that was held can be dropped: from every reachable state that holds one, if the user sends
-- another message between the end of the extraction and the dispatch, the dispatched call is refused
-- as busy and a state is reached in which the held SEND is nowhere.
pub queued_can_be_dropped :
    (w : World) (q m : QueuedSend)
    → Reach (start true) w
    → w.agent.queued_send ≡ some q
    → w.agent.base_ctx ≡ true
    → is_command m.message ≡ false
    → Reach w (overtaken w)
queued_can_be_dropped w q m r e b k =
    let c = Reach-IsConsistent true r in
    let i : is_idle w.agent.state ≡ true = ground (arith, c.flag_means_idle, c.queue_needs_flag) in
    next (send_pending 0)
      (next (send m) (next (extraction_end true) here (queued_is_handed_over w q true r e b))
        (overtake_first w q m i k))
      (overtake_second w q)
