-- ===== src/Retry.antt =====
-- The retrying backend (app/internal/llm/retry.go). Durations, logging and the backoff callback do
-- not change its result and are left out.
pub mod Attempts
use shell_agent_v.Base.{
  ℕ, zero, suc, ◌+◌, ◌-◌, Bool, true, false, not, ◌&&◌, ◌||◌, List, [], ◌∷◌, ltb, leb, ◌==◌,
  if◌then◌else◌,
}
use shell_agent_v.Text.{Text, codes, contains}
use shell_agent_v.Llm.{Response}

-- An error: what errors.Is and errors.As say of it, and its text.
pub record LlmError : Type 0 where
  pub is_deadline : Bool
  pub is_cancelled : Bool
  pub is_net_timeout : Bool
  pub text : Text

pub data Answer : Type 0 where
  answered : Response → Answer
  failed : LlmError → Answer

-- What happens around the attempts: the answer of each; whether its own timeout has fired; whether
-- the caller's context has ended after it for another reason than its deadline; and whether the
-- caller's context ends during the wait after it. `lower` is strings.ToLower.
pub record Calls : Type 0 where
  pub op : ℕ → Answer
  pub timed_out : ℕ → Bool
  pub aborted : ℕ → Bool
  pub done_waiting : ℕ → Bool
  pub lower : Text → Text

abbrev pub retryable_hints : List Text
retryable_hints =
    codes "429"
    ∷ codes "499"
    ∷ codes "500"
    ∷ codes "502"
    ∷ codes "503"
    ∷ codes "504"
    ∷ codes "resource_exhausted"
    ∷ codes "unavailable"
    ∷ codes "deadline_exceeded"
    ∷ codes "deadline exceeded"
    ∷ codes "cancelled"
    ∷ codes "connection reset"
    ∷ codes "connection refused"
    ∷ codes "i/o timeout"
    ∷ codes "eof"
    ∷ []

unfoldable pub contains_any : Text → List Text → Bool
unfolding contains
contains_any msg [] = false
contains_any msg (hint ∷ hints) = contains msg hint || contains_any msg hints

unfoldable pub is_retryable : (Text → Text) → LlmError → Bool
unfolding contains_any
is_retryable lower e =
    if e.is_deadline
    then true
    else if e.is_cancelled
    then false
    else if e.is_net_timeout
    then true
    else contains_any (lower e.text) retryable_hints

pub data Outcome : Type 0 where
  success : Response → Outcome
  last_error : LlmError → Outcome
  context_error : Outcome
  gave_up : LlmError → Outcome

-- The end of `do`, and how many attempts were made.
pub record Done : Type 0 where
  pub outcome : Outcome
  pub attempts : ℕ

abbrev pub ended_at : ℕ → Outcome → Done
ended_at attempt outcome = record { outcome = outcome; attempts = suc attempt }

module _ (c : Calls) where
  -- What follows a failed attempt.
  abbrev pub after_error : ℕ → ℕ → LlmError → Done → Done
  after_error left attempt e next =
      if c.aborted attempt
      then ended_at attempt (last_error e)
      else if not (c.timed_out attempt || is_retryable c.lower e)
      then ended_at attempt (last_error e)
      else if left == 0
      then ended_at attempt (gave_up e)
      else if c.done_waiting attempt
      then ended_at attempt context_error
      else next

  abbrev pub after_answer : ℕ → ℕ → Answer → Done → Done
  after_answer left attempt (answered r) next = ended_at attempt (success r)
  after_answer left attempt (failed e) next = after_error left attempt e next

  -- The loop: the attempts left after this one, and the number of this one.
  unfoldable pub attempt_from : ℕ → ℕ → Done
  unfolding is_retryable
  attempt_from zero attempt = after_answer 0 attempt (c.op attempt) (ended_at attempt context_error)
  attempt_from (suc left) attempt =
      after_answer (suc left) attempt (c.op attempt) (attempt_from left (suc attempt))

  -- A MaxAttempts below one counts as one.
  unfoldable pub do_call : ℕ → Done
  unfolding attempt_from
  do_call max_attempts = attempt_from (max_attempts - 1) 0
