-- ===== src/Examples/FsmRuns.antt =====
-- A message, its turn, and a second message while memory extraction runs
-- (app/internal/agent/agent.go).
use shell_agent_v.Base.{◌≡◌, refl, true, false, some, []}
use shell_agent_v.Text.{codes}
use shell_agent_v.Agent.Fsm.{State, QueuedSend, snapshot, is_command}
use shell_agent_v.Agent.Fsm.World.{
  World, start, user, send, turn_end, extraction_end, perform, Reach, here, next,
}
use shell_agent_v.Agent.Fsm.Invariant.{
  IsConsistent, PhaseMeans, Reach-IsConsistent, snapshot-faithful,
}
use shell_agent_v.Agent.Fsm.Queue.{
  handed_over, queued_is_handed_over, overtaken, queued_can_be_dropped,
}

abbrev said : QueuedSend
said = record {
  message = codes "hello";
  image_object_ids = [];
  image_data_urls = [];
  document_object_ids = [];
  queued_at = 7;
}

-- The second message waits in the slot.
abbrev held : World
held = record (start true) {
  agent = record {
    state = State.idle;
    cancel = true;
    post_cancel = true;
    extraction_in_flight = true;
    queued_send = some said;
    base_ctx = true;
  };
  extractions = 1;
  titles = 1;
}

abbrev reach_held : Reach (start true) held
unfolding perform is_command
reach_held = next (send said) (next (turn_end user true) (next (send said) here refl) refl) refl

is_no_command : is_command said.message ≡ false
unfolding is_command
is_no_command = refl

held-IsConsistent : IsConsistent held
held-IsConsistent = Reach-IsConsistent true reach_held

held_is_shown : PhaseMeans (snapshot held.agent).phase held.agent
held_is_shown = snapshot-faithful true reach_held

held_goes_out : perform (extraction_end false) held ≡ some (handed_over said held)
held_goes_out = queued_is_handed_over held said false reach_held refl refl

held_can_be_lost : Reach held (overtaken held)
held_can_be_lost = queued_can_be_dropped held said said reach_held refl refl is_no_command
