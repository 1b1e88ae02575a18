-- ===== src/Agent/Fsm.antt =====
-- The agent's deferred-extraction state machine (app/internal/agent/agent.go): SendWithAttachments,
-- Abort, Snapshot, postResponseTasks and its clean-up, and the lifecycle operations' gate. Each
-- definition is one region that runs under the agent's mutex, with the events emitted after it.
pub mod World
pub mod Invariant
pub mod Queue
use shell_agent_v.Base.{
  ℕ, Bool, true, false, not, ◌&&◌, ◌||◌, List, [], ◌∷◌, ◌++◌, Option, none, some, if◌then◌else◌,
}
use shell_agent_v.Text.{Text, codes, ◌=ᵗ◌, has_prefix, runes, encode, first_field}

pub data State : Type 0 where
  idle busy : State

-- The parameters of a SEND, held while the slot waits.
pub record QueuedSend : Type 0 where
  pub message : Text
  pub image_object_ids : List Text
  pub image_data_urls : List Text
  pub document_object_ids : List Text
  pub queued_at : ℕ

-- The agent's fields that its mutex guards. `cancel` and `post_cancel` say that a function is set,
-- and `base_ctx` that the long-lived context is.
pub record Fsm : Type 0 where
  pub state : State
  pub cancel : Bool
  pub post_cancel : Bool
  pub extraction_in_flight : Bool
  pub queued_send : Option QueuedSend
  pub base_ctx : Bool

pub data Event : Type 0 where
  queued : Text → ℕ → Event
  queue_cleared : Event
  queue_dispatched : Text → Event
  extraction_started : Event
  extraction_done : Bool → Event

-- What the locked region at the head of SendWithAttachments decides.
pub data Entry : Type 0 where
  entry_queued : ℕ → Entry
  entry_busy : Entry
  entry_started : Entry

abbrev pub is_idle : State → Bool
is_idle idle = true
is_idle busy = false

abbrev pub is_some {ℓ} : {A : Type ℓ} → Option A → Bool
is_some none = false
is_some (some a) = true

-- The caller gives the time as `queued_at`.
unfoldable pub send_enter : QueuedSend → Fsm → Entry × Fsm × List Event
send_enter q a =
    if is_idle a.state && a.extraction_in_flight
    then (
      entry_queued q.queued_at,
      record a { queued_send = some q },
      queued q.message q.queued_at ∷ [],
    )
    else if not (is_idle a.state)
    then (entry_busy, a, [])
    else (entry_started, record a { state = busy; cancel = true }, [])

-- The slash commands that are run in place of a turn.
unfoldable pub is_command : Text → Bool
unfolding ◌=ᵗ◌ has_prefix runes encode first_field
is_command message =
    let word = encode (first_field (runes message)) in
    has_prefix message (codes "/")
    && (word =ᵗ codes "/model"
        || word =ᵗ codes "/profile"
        || word =ᵗ codes "/finding"
        || word =ᵗ codes "/findings"
        || word =ᵗ codes "/help")

-- The end of a slash command, failing or not.
unfoldable pub command_exit : Fsm → Fsm
command_exit a = record a { state = idle; cancel = false }

-- The head of postResponseTasks; the flag is autoExtractEnabled.
unfoldable pub post_response : Bool → Fsm → Fsm × List Event
post_response extract_on a = (
  record a { post_cancel = true; extraction_in_flight = extract_on; state = idle },
  if extract_on then extraction_started ∷ [] else [],
)

abbrev pub dispatch_of : Bool → Option QueuedSend → Option QueuedSend
dispatch_of true q = q
dispatch_of false q = none

abbrev pub dispatch_events : Option QueuedSend → List Event
dispatch_events none = []
dispatch_events (some q) = queue_dispatched q.message ∷ []

-- The deferred clean-up of the extraction goroutine, and the SEND that it dispatches, if any.
unfoldable pub extraction_cleanup : Bool → Fsm → Option QueuedSend × Fsm × List Event
extraction_cleanup success a =
    let dispatched = dispatch_of a.base_ctx a.queued_send in
    (
      dispatched,
      record a { extraction_in_flight = false; queued_send = none },
      extraction_done success ∷ dispatch_events dispatched,
    )

unfoldable pub abort : Fsm → Fsm × List Event
abort a = (
  record a { queued_send = none; extraction_in_flight = false },
  (if is_some a.queued_send then queue_cleared ∷ [] else [])
      ++ (if a.extraction_in_flight then extraction_done false ∷ [] else []),
)

unfoldable pub reset_state_machine : Fsm → Fsm
reset_state_machine a = record a { extraction_in_flight = false; queued_send = none; state = idle }

-- The gate of DeleteSession, ExportSession and ImportSession; `none` is ErrBusy.
unfoldable pub lifecycle_enter : Fsm → Option Fsm
unfolding reset_state_machine
lifecycle_enter a =
    if is_idle a.state then some (record (reset_state_machine a) { state = busy }) else none

unfoldable pub lifecycle_exit : Fsm → Fsm
lifecycle_exit a = record a { state = idle }

-- The gate of LoadSession, which keeps the mutex until it returns.
unfoldable pub load_session : Fsm → Option Fsm
unfolding reset_state_machine
load_session a = if is_idle a.state then some (reset_state_machine a) else none

pub data Phase : Type 0 where
  ready busy extracting queued : Phase

pub record Snapshot : Type 0 where
  pub phase : Phase
  pub queued_message : Text

abbrev pub message_of : Option QueuedSend → Text
message_of none = []
message_of (some q) = q.message

unfoldable pub snapshot : Fsm → Snapshot
snapshot a = record {
  phase =
      if not (is_idle a.state)
      then Phase.busy
      else if a.extraction_in_flight && is_some a.queued_send
      then Phase.queued
      else if a.extraction_in_flight
      then Phase.extracting
      else Phase.ready;
  queued_message = message_of a.queued_send;
}

unfoldable pub is_busy : Fsm → Bool
unfolding snapshot
is_busy a = elim (snapshot a).phase [ ready ↦ false | _ ↦ true ]
