-- ===== src/Agent/Loop/Rounds.antt =====
-- Bounds on a turn of agentLoop (app/internal/agent/agent.go), and what it does to the records.
use shell_agent_v.Base.{
  ℕ, zero, suc, ◌+◌, ◌≤◌, ◌≡◌, refl, Bool, true, false, not, ◌||◌, Option, none, some, List, [],
  ◌∷◌, ◌++◌, append_assoc, append-nil, arith, length, Bool-cases, inl, inr,
}
use shell_agent_v.Text.{Text}
use shell_agent_v.Session.{
  Session, Record, add_user_message, add_assistant_message, add_assistant_message_with_tool_calls,
  add_tool_result,
}
use shell_agent_v.Llm.{ToolCall, Message, Response}
use shell_agent_v.Agent.Loop.{
  Env, LoopState, Outcome, again, finished, Reply, PendingReport, Request, is_empty,
  set_last_object_ids, attach_to_last, attach, flush_pending_report, execute_call, execute_calls,
  final_response, handle_response, receive, prepare, send_request, run_round, proceed, run_rounds,
  agent_loop, first_state, time_of,
}

abbrev pub one_if : Bool → ℕ
one_if true = 1
one_if false = 0

-- How many requests carried the wrap-up nudge.
abbrev pub nudges : List Request → ℕ
nudges [] = 0
nudges (r ∷ rs) = one_if r.nudged + nudges rs

abbrev pub Extends {ℓ} : {A : Type ℓ} → List A → List A → Type ℓ
Extends {A = A} xs ys = (zs : List A) × (ys ≡ xs ++ zs)

Extends-trans {ℓ} : {A : Type ℓ} (xs ys zs : List A) → Extends xs ys → Extends ys zs → Extends xs zs
Extends-trans xs ys zs (a, p) (b, q) = (a ++ b, rw (q, p) (append_assoc xs a b))

-- What holds of the loop's state when the session's records began as `first` and at most `n`
-- requests were sent.
record IsBounded (first : List Record) (n : ℕ) (s : LoopState) : Type 0 where
  extends : Extends first s.session.records
  sent : length s.requests ≤ n
  nudged_once : nudges s.requests + one_if s.inject_empty_nudge ≤ one_if s.empty_retry_done

set_last-append :
    (ids : List Text) (xs : List Record) (y : Record)
    → set_last_object_ids ids (xs ++ y ∷ []) ≡ xs ++ record y { object_ids = ids } ∷ []
unfolding set_last_object_ids
set_last-append ids [] y = refl
set_last-append ids (x ∷ []) y = refl
set_last-append ids (x ∷ x' ∷ xs) y = rw (set_last-append ids (x' ∷ xs) y)

attach-append :
    (ids urls docs : List Text) (xs : List Record) (y : Record)
    → attach_to_last ids urls docs (xs ++ y ∷ [])
      ≡ xs ++ record y { object_ids = ids; image_urls = urls; document_ids = docs } ∷ []
unfolding attach_to_last
attach-append ids urls docs [] y = refl
attach-append ids urls docs (x ∷ []) y = refl
attach-append ids urls docs (x ∷ x' ∷ xs) y = rw (attach-append ids urls docs (x' ∷ xs) y)

Extends-set_last :
    (ids : List Text) (xs : List Record) (y : Record)
    → Extends xs (set_last_object_ids ids (xs ++ y ∷ []))
Extends-set_last ids xs y = (record y { object_ids = ids } ∷ [], set_last-append ids xs y)

Extends-report :
    (now : ℕ) (p : PendingReport) (s : Session) (b : Bool)
    → is_empty p.object_id ≡ b
    → Extends s.records (flush_pending_report now (some p) s).records
unfolding flush_pending_report
Extends-report now p s true e = rw e (_, refl)
Extends-report now p s false e = rw e (Extends-set_last (p.object_id ∷ []) s.records _)

Extends-flush :
    (now : ℕ) (p : Option PendingReport) (s : Session)
    → Extends s.records (flush_pending_report now p s).records
Extends-flush now none s = unfold flush_pending_report in ([], rw append-nil)
Extends-flush now (some p) s = Extends-report now p s (is_empty p.object_id) refl

abbrev OutcomeBounded : List Record → ℕ → Outcome → Type 0
OutcomeBounded first n (again s) = IsBounded first n s
OutcomeBounded first n (finished reply s) = IsBounded first n s

module _ (env : Env) (first : List Record) (n : ℕ) where
  call-IsBounded :
      (tc : ToolCall) (s : LoopState)
      → IsBounded first n s
      → IsBounded first n (execute_call env tc s)
  unfolding execute_call add_tool_result
  call-IsBounded tc s h = record {
    extends = Extends-trans _ _ _ (Extends-trans _ _ _ h.extends (_, refl)) (Extends-flush _ _ _);
    sent = h.sent;
    nudged_once = h.nudged_once;
  }

  calls-IsBounded :
      (tcs : List ToolCall) (s : LoopState)
      → IsBounded first n s
      → IsBounded first n (execute_calls env tcs s)
  unfolding execute_calls
  calls-IsBounded [] s h = h
  calls-IsBounded (tc ∷ tcs) s h = calls-IsBounded tcs _ (call-IsBounded tc s h)

  final-IsBounded :
      (content : Text) (s : LoopState)
      → s.inject_empty_nudge ≡ false
      → IsBounded first n s
      → OutcomeBounded first n (final_response env content s)
  unfolding final_response add_assistant_message
  final-IsBounded content s e h = elim (Bool-cases (not (is_empty content))) [
    | inl c ↦ rw c (record {
      extends = Extends-trans _ _ _ h.extends (_, refl);
      sent = h.sent;
      nudged_once = h.nudged_once;
    })
    | inr c ↦ elim (Bool-cases (not s.empty_retry_done)) [
      | inl d ↦
          rw (c, d)
            (record {
              extends = h.extends;
              sent = h.sent;
              nudged_once = ground (arith, h.nudged_once);
            })
      | inr d ↦ rw (c, d) h
    ]
  ]

  handle-IsBounded :
      (resp : Response) (s : LoopState)
      → s.inject_empty_nudge ≡ false
      → IsBounded first n s
      → OutcomeBounded first n (handle_response env resp s)
  unfolding handle_response add_assistant_message_with_tool_calls
  handle-IsBounded resp s e h = elim (Bool-cases (is_empty resp.tool_calls)) [
    | inl c ↦ rw c (
        final-IsBounded _ _ e
          (record { extends = h.extends; sent = h.sent; nudged_once = h.nudged_once }))
    | inr c ↦ rw c (
        calls-IsBounded resp.tool_calls _ (record {
          extends = Extends-trans _ _ _ h.extends (_, refl);
          sent = h.sent;
          nudged_once = h.nudged_once;
        }))
  ]

  receive-IsBounded :
      (resp : Option Response) (s : LoopState)
      → s.inject_empty_nudge ≡ false
      → IsBounded first n s
      → OutcomeBounded first n (receive env resp s)
  receive-IsBounded none s e h = h
  receive-IsBounded (some resp) s e h = handle-IsBounded resp s e h

one_more :
    (first : List Record) (n : ℕ) (s : LoopState) → IsBounded first n s → IsBounded first (suc n) s
one_more first n s h = record {
  extends = h.extends;
  sent = omega (arith, h.sent);
  nudged_once = h.nudged_once;
}

module _ (env : Env) (first : List Record) (n : ℕ) where
  prepare-IsBounded :
      (messages : List Message) (s : LoopState)
      → IsBounded first n s
      → IsBounded first (suc n) (prepare env messages s)
  unfolding prepare
  prepare-IsBounded messages s h = record {
    extends = h.extends;
    sent = omega (arith, h.sent);
    nudged_once = omega (arith, h.nudged_once);
  }

  send-IsBounded :
      (round : ℕ) (built : Option (List Message)) (s : LoopState)
      → IsBounded first n s
      → OutcomeBounded first (suc n) (send_request env round built s)
  unfolding send_request
  send-IsBounded round none s h = one_more first n s h
  send-IsBounded round (some messages) s h =
      receive-IsBounded env first (suc n) _ _ (unfold prepare in refl)
        (prepare-IsBounded messages s h)

  round-IsBounded :
      (round : ℕ) (s : LoopState)
      → IsBounded first n s
      → OutcomeBounded first (suc n) (run_round env round s)
  unfolding run_round
  round-IsBounded round s h = elim (Bool-cases (env.cancelled round)) [
    | inl e ↦ rw e (one_more first n s h)
    | inr e ↦ rw e (send-IsBounded round (env.build round s.session) s h)
  ]

module _ (env : Env) (first : List Record) where
  more : (n m : ℕ) (s : LoopState) → n ≤ m → IsBounded first n s → IsBounded first m s
  more n m s le h = record {
    extends = h.extends;
    sent = omega (arith, h.sent);
    nudged_once = h.nudged_once;
  }

  proceed-IsBounded :
      (n m : ℕ) (next : LoopState → Reply × LoopState) (out : Outcome)
      → n ≤ m
      → ((s : LoopState) → IsBounded first n s → IsBounded first m (next s).1)
      → OutcomeBounded first n out
      → IsBounded first m (proceed env next out).1
  proceed-IsBounded n m next (again s) le k h = k s h
  proceed-IsBounded n m next (finished reply s) le k h = more n m s le h

  rounds-IsBounded :
      (left round n : ℕ) (s : LoopState)
      → IsBounded first n s
      → IsBounded first (n + left) (run_rounds env left round s).1
  unfolding run_rounds
  rounds-IsBounded zero round n s h = more n (n + 0) s (omega arith) h
  rounds-IsBounded (suc left) round n s h =
      proceed-IsBounded (suc n) (n + suc left) (run_rounds env left (suc round))
        (run_round env round s) (omega arith)
        (λ s' h'.
          more (suc n + left) (n + suc left) _ (omega arith)
            (rounds-IsBounded left (suc round) (suc n) s' h'))
        (round-IsBounded env first n round s h)

Extends-attach :
    (ids urls docs : List Text) (now : ℕ) (content : Text) (s : Session)
    → Extends s.records (attach ids urls docs (add_user_message now content s)).records
unfolding attach add_user_message
Extends-attach ids urls docs now content s =
    elim (Bool-cases (not (is_empty ids) || not (is_empty urls) || not (is_empty docs))) [
      | inl e ↦ rw e (_, attach-append ids urls docs s.records _)
      | inr e ↦ rw e (_, refl)
    ]

nudged_at_most_once :
    {first : List Record} {n : ℕ} (s : LoopState) → IsBounded first n s → nudges s.requests ≤ 1
nudged_at_most_once s h = ground (arith, h.nudged_once)

-- A turn, however it ends, sends at most as many requests to the backend as the settings allow
-- rounds, puts the wrap-up nudge in front of at most one of them, and only appends to the session's
-- records.
pub agent_loop_bounds :
    (env : Env) (user_message : Text) (ids urls docs : List Text) (session : Session)
    → let s = (agent_loop env user_message ids urls docs session).1 in
      (length s.requests ≤ env.max_rounds)
      × (nudges s.requests ≤ 1)
      × Extends session.records s.session.records
unfolding agent_loop
agent_loop_bounds env user_message ids urls docs session =
    let attached =
      attach ids urls docs (add_user_message (time_of env session) user_message session) in
    let b = rounds-IsBounded env session.records env.max_rounds 0 0 (first_state attached) (record {
      extends = Extends-attach ids urls docs (time_of env session) user_message session;
      sent = omega arith;
      nudged_once = omega arith;
    }) in
    (omega (arith, b.sent), nudged_at_most_once _ b, b.extends)
