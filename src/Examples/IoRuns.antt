-- ===== src/Examples/IoRuns.antt =====
-- A buffer that overflows, and a backend that fails once
-- (app/internal/sandbox/limitedbuffer.go, app/internal/llm/retry.go).
use shell_agent_v.Base.{
  ℕ, zero, suc, ◌≤◌, ◌<◌, ◌≡◌, refl, true, false, not, ◌&&◌, ◌||◌, [], ◌∷◌, length, take, ltb,
  arith,
}
use shell_agent_v.Text.{codes, concat}
use shell_agent_v.Llm.{Response}
use shell_agent_v.Sandbox.{new_limited_buffer}
use shell_agent_v.Sandbox.Writes.{write_all, write_all_lem}
use shell_agent_v.Retry.{Calls, LlmError, Answer, answered, failed, do_call, is_retryable}
use shell_agent_v.Retry.Attempts.{FitsOutcome, do_call_bound, do_call_retries}

first_bytes_are_held :
    ((write_all (codes "abc" ∷ codes "de" ∷ []) (new_limited_buffer 9 4)).buf
      ≡ take 4 (codes "abcde"))
    × ((not (write_all (codes "abc" ∷ codes "de" ∷ []) (new_limited_buffer 9 4)).truncated
          && ltb 4 (length (codes "abcde")))
        ≡ false)
unfolding new_limited_buffer concat
first_bytes_are_held = write_all_lem 9 4 (codes "abc" ∷ codes "de" ∷ [])

abbrev rate_limit : LlmError
rate_limit = record {
  is_deadline = false;
  is_cancelled = false;
  is_net_timeout = false;
  text = codes "429";
}

abbrev fine : Response
fine = record {
  content = codes "ok";
  tool_calls = [];
  prompt_tokens = 1;
  output_tokens = 1;
  thought_part_sigs = [];
  text_part_sig = [];
}

abbrev answer_at : ℕ → Answer
answer_at zero = failed rate_limit
answer_at (suc n) = answered fine

abbrev fails_once : Calls
fails_once = record {
  op = answer_at;
  timed_out = λ n. false;
  aborted = λ n. false;
  done_waiting = λ n. false;
  lower = λ t. t;
}

two_attempts : (do_call fails_once 3).attempts ≡ 2
unfolding do_call
two_attempts = refl

call_is_bounded :
    (0 < (do_call fails_once 3).attempts)
    × ((do_call fails_once 3).attempts ≤ 3)
    × FitsOutcome fails_once 3 (do_call fails_once 3).attempts (do_call fails_once 3).outcome
call_is_bounded = do_call_bound fails_once 3

first_was_transient :
    (e : LlmError) × (answer_at 0 ≡ failed e)
    × ((false || is_retryable (λ t. t) e) ≡ true)
    × (false ≡ false)
    × (false ≡ false)
first_was_transient = do_call_retries fails_once 3 0 (omega (arith, two_attempts))
