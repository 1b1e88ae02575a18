-- ===== src/Retry/Attempts.antt =====
-- How often the retrying backend asks (app/internal/llm/retry.go).
use mathlib.Core.Path.{subst}
use shell_agent_v.Base.{
  ℕ, zero, suc, ◌+◌, ◌-◌, ◌≤◌, ◌<◌, ◌≡◌, refl, true, false, ◌||◌, ◌==◌, arith, inl, inr, max,
  Bool-cases,
}
use shell_agent_v.Retry.{
  Calls, LlmError, Answer, answered, failed, Outcome, success, last_error, context_error, gave_up,
  Done, attempt_from, after_answer, do_call, is_retryable,
}

-- How an outcome fits the number of attempts and those allowed: it reports on the last attempt, but
-- for the error of the context, with which a call ends in the wait before an attempt that is still
-- allowed. Only the last attempt that is allowed gives up.
abbrev pub FitsOutcome : Calls → ℕ → ℕ → Outcome → Type 0
FitsOutcome c allowed attempts (success r) = c.op (attempts - 1) ≡ answered r
FitsOutcome c allowed attempts (last_error e) = c.op (attempts - 1) ≡ failed e
FitsOutcome c allowed attempts context_error =
    (attempts < allowed) × (c.done_waiting (attempts - 1) ≡ true)
FitsOutcome c allowed attempts (gave_up e) = (attempts ≡ allowed) × (c.op (attempts - 1) ≡ failed e)

module _ (c : Calls) where
  record IsFit (allowed attempt : ℕ) (d : Done) : Type 0 where
    started : attempt < d.attempts
    bounded : d.attempts ≤ allowed
    fits : FitsOutcome c allowed d.attempts d.outcome

  last_of : (attempt : ℕ) → suc attempt - 1 ≡ attempt
  last_of attempt = omega arith

  IsFit-answer :
      (left attempt : ℕ) (x : Answer) (next : Done)
      → c.op attempt ≡ x
      → (0 < left → IsFit (suc attempt + left) (suc attempt) next)
      → IsFit (suc attempt + left) attempt (after_answer c left attempt x next)
  IsFit-answer left attempt (answered r) next e h = record {
    started = omega arith;
    bounded = omega arith;
    fits = rw (last_of attempt) e;
  }
  IsFit-answer left attempt (failed x) next e h = elim (Bool-cases (c.aborted attempt)) [
    | inl a ↦
        rw a
          (record { started = omega arith; bounded = omega arith; fits = rw (last_of attempt) e })
    | inr a ↦ elim (Bool-cases (c.timed_out attempt || is_retryable c.lower x)) [
      | inr r ↦
          rw (a, r)
            (record { started = omega arith; bounded = omega arith; fits = rw (last_of attempt) e })
      | inl r ↦ elim (Bool-cases (left == 0)) [
        | inl z ↦
            rw (a, r, z)
              (record {
                started = omega arith;
                bounded = omega arith;
                fits = (ground (arith, z), rw (last_of attempt) e);
              })
        | inr z ↦ elim (Bool-cases (c.done_waiting attempt)) [
          | inl w ↦
              rw (a, r, z, w)
                (record {
                  started = omega arith;
                  bounded = omega arith;
                  fits = (ground (arith, z), rw (last_of attempt) w);
                })
          | inr w ↦
              (let k = h (ground (arith, z)) in
                rw (a, r, z, w)
                  (record {
                    started = omega (arith, k.started);
                    bounded = k.bounded;
                    fits = k.fits;
                  }))
        ]
      ]
    ]
  ]

  attempt_from-IsFit :
      (left attempt : ℕ) → IsFit (suc attempt + left) attempt (attempt_from c left attempt)
  unfolding attempt_from
  attempt_from-IsFit zero attempt =
      IsFit-answer 0 attempt (c.op attempt) _ refl (λ h. absurd (omega (arith, h)))
  attempt_from-IsFit (suc left) attempt =
      IsFit-answer (suc left) attempt (c.op attempt) _ refl (λ h.
        subst (λ n. IsFit n (suc attempt) (attempt_from c left (suc attempt))) (omega arith)
          (attempt_from-IsFit left (suc attempt)))

  -- A failure that is asked again: it is transient, and the caller has not ended the call.
  abbrev pub IsTransient : ℕ → Type 0
  IsTransient j =
      (e : LlmError) × (c.op j ≡ failed e)
      × ((c.timed_out j || is_retryable c.lower e) ≡ true)
      × (c.aborted j ≡ false)
      × (c.done_waiting j ≡ false)

  after_answer-IsTransient :
      (left attempt : ℕ) (x : Answer) (next : Done) (j : ℕ)
      → c.op attempt ≡ x
      → attempt ≤ j
      → suc j < (after_answer c left attempt x next).attempts
      → (suc attempt ≤ j → suc j < next.attempts → IsTransient j)
      → IsTransient j
  after_answer-IsTransient left attempt (answered r) next j e a h k = absurd (omega (arith, a, h))
  after_answer-IsTransient left attempt (failed x) next j e a h k =
      elim (Bool-cases (j == attempt)) [
        | inl q ↦
            (let same : j ≡ attempt = ground (arith, q) in
              rw same (x, e, ground (arith, h, a), ground (arith, h, a), ground (arith, h, a)))
        | inr q ↦ k (ground (arith, q, a)) (ground (arith, h, a))
      ]

  attempt_from-IsTransient :
      (left attempt j : ℕ)
      → attempt ≤ j
      → suc j < (attempt_from c left attempt).attempts
      → IsTransient j
  unfolding attempt_from
  attempt_from-IsTransient zero attempt j a h =
      after_answer-IsTransient 0 attempt (c.op attempt) _ j refl a h
        (λ b g. absurd (omega (arith, b, g)))
  attempt_from-IsTransient (suc left) attempt j a h =
      after_answer-IsTransient (suc left) attempt (c.op attempt) _ j refl a h
        (attempt_from-IsTransient left (suc attempt) j)

-- A call ends after at least one attempt and at most the allowed number, which is one where none is
-- configured. Its answer or error is that of the last attempt, unless the context has ended in the
-- wait after that attempt, which was not the last allowed; it gives up only when all that are
-- allowed have been made.
pub do_call_bound :
    (c : Calls) (max_attempts : ℕ)
    → let d = do_call c max_attempts in
      (0 < d.attempts)
      × (d.attempts ≤ max 1 max_attempts)
      × FitsOutcome c (max 1 max_attempts) d.attempts d.outcome
unfolding do_call
do_call_bound c max_attempts =
    let k : suc 0 + (max_attempts - 1) ≡ max 1 max_attempts = omega arith in
    let h =
      subst (λ n. IsFit c n 0 (attempt_from c (max_attempts - 1) 0)) k
        (attempt_from-IsFit c (max_attempts - 1) 0) in
    (h.started, h.bounded, h.fits)

-- Every attempt but the last of a call has failed with a transient error: one that IsRetryable
-- accepts or that came with the timeout of the attempt, the caller having ended the call neither
-- then nor during the wait.
pub do_call_retries :
    (c : Calls) (max_attempts j : ℕ)
    → suc j < (do_call c max_attempts).attempts
    → (e : LlmError) × (c.op j ≡ failed e)
      × ((c.timed_out j || is_retryable c.lower e) ≡ true)
      × (c.aborted j ≡ false)
      × (c.done_waiting j ≡ false)
unfolding do_call
do_call_retries c max_attempts j h =
    attempt_from-IsTransient c (max_attempts - 1) 0 j (omega arith) h
