-- ===== src/Workers/Requests/Tries.antt =====
-- How often a request is tried, and when it succeeds.
use chapterhouse_qe.Common.{
  ℕ, zero, suc, ◌+◌, ◌*◌, ◌≤◌, ◌≡◌, ◌≢◌, refl, sym, ap, ◌∙◌, subst, Bool, true, false, Option, none,
  some, List, [], ◌∷◌, ◌++◌, append_assoc, append-nil, length, All, All-append, ◌==◌, Outcome, ok,
  err, panic, Bool-cases, inl, inr, ◌⊎◌, arith, length-append,
}
use chapterhouse_qe.External.{External}
use chapterhouse_qe.Messages.Names.{common_generic_response, as_u16}
use chapterhouse_qe.Messages.Payloads.{
  Codec, Payload, payloads, msg_name, ok_response, error_response, of_response,
}
use chapterhouse_qe.Messages.Message.{Payloads, Message, new}
use chapterhouse_qe.Messages.Pipe.{
  PipeError, channel_closed, timed_out_waiting_for_message_to_send, outgoing, expected,
}
use chapterhouse_qe.Workers.Actions.{
  Environment, Context, HandlerError, Action, pipe_error, received_error_response,
  unable_to_cast_message, called, put, of_pipe, and_then, sent_if, await, new_message, send,
  send_request, or_again, retry_request,
}
use chapterhouse_qe.Workers.Requests.{check_response, ask_once, ask_with_retry}

-- A reply of success.
abbrev pub IsGood :
    {X : External} (c : Codec X) → Outcome PipeError (Option (Message (payloads c))) → Type 0
IsGood c r = (m : Message (payloads c)) × (r ≡ ok (some m)) × (m.msg ≡ of_response ok_response)

module _ {P : Payloads} {S E A : Type 0} where
  or_again_ok :
      (r : Outcome (HandlerError E) A × Context P S) (again : Action P S E A) (a : A)
      → r.0 ≡ ok a
      → (or_again r again).0 ≡ ok a
  or_again_ok (ok b, after) again a h = h
  or_again_ok (err e, after) again a h = absurd (cc)
  or_again_ok (panic, after) again a h = absurd (cc)

  or_again_err :
      (r : Outcome (HandlerError E) A × Context P S) (again : Action P S E A) (e : HandlerError E)
      → r.0 ≡ err e
      → or_again r again ≡ again r.1
  or_again_err (ok b, after) again e h = absurd (cc)
  or_again_err (err d, after) again e h = refl
  or_again_err (panic, after) again e h = absurd (cc)

module _ {X : External} (c : Codec X) {S : Type 0} (E : Type 0) (env : Environment (payloads c))
    (routed : Message (payloads c) → Message (payloads c)) (payload : Payload X) where
  -- What a try sends: nothing when the channel does not take it.
  abbrev tried : Context (payloads c) S → Message (payloads c)
  tried ctx = outgoing env.pipe (routed (new_message env payload ctx))

  abbrev checked :
      Outcome PipeError (Option (Message (payloads c)))
      → Context (payloads c) S
      → Outcome (HandlerError E) (Unit {0}) × Context (payloads c) S
  checked r ctx =
      and_then (of_pipe (expected common_generic_response r), ctx) (λ m. check_response c m.msg)

  abbrev try_with :
      Bool → Context (payloads c) S → Outcome (HandlerError E) (Unit {0}) × Context (payloads c) S
  try_with b ctx =
      and_then (and_then (sent_if b (tried ctx) ctx) (λ done. await env common_generic_response))
        (λ m. check_response c m.msg)

  try_lem :
      (ctx : Context (payloads c) S)
      → ask_once c env routed payload ctx ≡ try_with (env.accepts ctx.calls) ctx
  unfolding ask_once send_request send
  try_lem ctx = refl

  refused :
      (ctx : Context (payloads c) S)
      → env.accepts ctx.calls ≡ false
      → ask_once c {E = E} env routed payload ctx
        ≡ (err (pipe_error timed_out_waiting_for_message_to_send), called ctx)
  refused ctx e = try_lem ctx ∙ ap (λ b. try_with b ctx) e

  accepted :
      (ctx : Context (payloads c) S)
      → env.accepts ctx.calls ≡ true
      → ask_once c {E = E} env routed payload ctx
        ≡ checked (env.receives (ctx.calls + 1)) (called (put (tried ctx) ctx))
  accepted ctx e = try_lem ctx ∙ ap (λ b. try_with b ctx) e

  check_calls :
      (p : Payload X) (ctx : Context (payloads c) S) → (check_response c {E = E} p ctx).1 ≡ ctx
  unfolding check_response
  check_calls (of_response ok_response) ctx = refl
  check_calls (of_response (error_response text)) ctx = refl
  check_calls _ ctx = refl

  checked_calls :
      (r : Outcome PipeError (Message (payloads c))) (ctx : Context (payloads c) S)
      → (and_then (of_pipe r, ctx) (λ m. check_response c {E = E} m.msg)).1 ≡ ctx
  checked_calls (ok m) ctx = check_calls m.msg ctx
  checked_calls (err e) ctx = refl
  checked_calls panic ctx = refl

  -- At most so many messages were sent, each with the payload.
  abbrev pub Sends : ℕ → Context (payloads c) S → Context (payloads c) S → Type 0
  Sends most before after =
      (more : List (Message (payloads c))) × (after.sent ≡ before.sent ++ more)
      × (length more ≤ most)
      × All (λ m. m.msg ≡ payload) more

  module _ (keeps : (m : Message (payloads c)) → (routed m).msg ≡ m.msg) where
    once-Sends :
        (ctx : Context (payloads c) S) → Sends 1 ctx (ask_once c {E = E} env routed payload ctx).1
    unfolding outgoing new
    once-Sends ctx = elim (Bool-cases (env.accepts ctx.calls)) [
      | inr e ↦
          ([], ap (λ r. r.1.sent) (refused ctx e) ∙ sym (append-nil ctx.sent), ground arith, tt)
      | inl e ↦ (
        tried ctx ∷ [],
        ap (λ r. r.1.sent) (accepted ctx e)
            ∙ ap (λ t. t.sent)
                (checked_calls (expected common_generic_response (env.receives (ctx.calls + 1)))
                  (called (put (tried ctx) ctx))),
        ground arith,
        (keeps (new_message env payload ctx), tt),
      )
    ]

    more-Sends :
        (k l : ℕ) (a b d : Context (payloads c) S) → Sends k a b → Sends l b d → Sends (k + l) a d
    more-Sends k l a b d (m, e, h, p) (n, e', h', p') = (
      m ++ n,
      e' ∙ ap (λ s. s ++ n) e ∙ append_assoc a.sent m n,
      omega (arith, h, h', length-append m n),
      All-append (λ m. m.msg ≡ payload) m n p p',
    )

    fewer-Sends : (k l : ℕ) (a b : Context (payloads c) S) → k ≤ l → Sends k a b → Sends l a b
    fewer-Sends k l a b h (m, e, h', p) = (m, e, omega (arith, h, h'), p)

    again-Sends :
        (k : ℕ) (a : Context (payloads c) S)
        (r : Outcome (HandlerError E) (Unit {0}) × Context (payloads c) S)
        (again : Action (payloads c) S E (Unit {0}))
        → Sends 1 a r.1
        → ((b : Context (payloads c) S) → Sends k b (again b).1)
        → Sends (suc k) a (or_again r again).1
    again-Sends k a (ok t, b) again h next = fewer-Sends 1 (suc k) a b (omega arith) h
    again-Sends k a (err e, b) again h next =
        fewer-Sends (1 + k) (suc k) a (again b).1 (omega arith)
          (more-Sends 1 k a b (again b).1 h (next b))
    again-Sends k a (panic, b) again h next = fewer-Sends 1 (suc k) a b (omega arith) h

    retry-Sends :
        (retries : ℕ) (ctx : Context (payloads c) S)
        → Sends
            (suc retries)
            ctx
            (retry_request retries (ask_once c {E = E} env routed payload) ctx).1
    unfolding retry_request
    retry-Sends zero ctx = once-Sends ctx
    retry-Sends (suc retries) ctx =
        again-Sends (suc retries) ctx (ask_once c env routed payload ctx)
          (retry_request retries (ask_once c env routed payload)) (once-Sends ctx)
          (retry-Sends retries)

    -- A request sends its message at most four times, whatever the channel and the other side do, and
    -- nothing else.
    pub ask_with_retry-Sends :
        (ctx : Context (payloads c) S)
        → Sends 4 ctx (ask_with_retry c {E = E} env routed payload ctx).1
    unfolding ask_with_retry
    ask_with_retry-Sends ctx = retry-Sends 3 ctx

  response_cases :
      (p : Payload X) (ctx : Context (payloads c) S)
      → ((check_response c {E = E} p ctx).0 ≡ ok tt)
        ⊎ ((e : HandlerError E) × ((check_response c {E = E} p ctx).0 ≡ err e))
  unfolding check_response
  response_cases (of_response ok_response) ctx = inl refl
  response_cases (of_response (error_response text)) ctx = inr (received_error_response text, refl)
  response_cases _ ctx = inr (unable_to_cast_message, refl)

  checked_cases :
      (r : Outcome PipeError (Option (Message (payloads c)))) (ctx : Context (payloads c) S)
      → r ≢ panic
      → ((checked r ctx).0 ≡ ok tt) ⊎ ((e : HandlerError E) × ((checked r ctx).0 ≡ err e))
  checked_cases (ok (some m)) ctx h =
      elim (Bool-cases (as_u16 (msg_name m.msg) == as_u16 common_generic_response)) [
        | inl e ↦ rw (e) (response_cases m.msg ctx)
        | inr e ↦ rw (e) (inr (_, refl))
      ]
  checked_cases (ok none) ctx h = inr (pipe_error channel_closed, refl)
  checked_cases (err e) ctx h = inr (pipe_error e, refl)
  checked_cases panic ctx h = absurd (h refl)

  good_lem :
      (r : Outcome PipeError (Option (Message (payloads c)))) (ctx : Context (payloads c) S)
      → IsGood c r
      → (checked r ctx).0 ≡ ok tt
  unfolding check_response msg_name as_u16
  good_lem r ctx (m, e, h) = rw (e) (rw (h, check_response) refl)

  retry_answered :
      (retries i : ℕ) (ctx : Context (payloads c) S)
      → ((k : ℕ) → env.accepts k ≡ true)
      → ((k : ℕ) → env.receives k ≢ panic)
      → i ≤ retries
      → IsGood c (env.receives (ctx.calls + 1 + 2 * i))
      → (retry_request retries (ask_once c {E = E} env routed payload) ctx).0 ≡ ok tt
  unfolding retry_request
  retry_answered zero i ctx takes calm h good =
      let first : ctx.calls + 1 + 2 * i ≡ ctx.calls + 1 = omega (arith, h) in
      ap (λ r. r.0) (accepted ctx (takes ctx.calls))
      ∙ good_lem (env.receives (ctx.calls + 1)) (called (put (tried ctx) ctx))
          (subst (λ k. IsGood c (env.receives k)) first good)
  retry_answered (suc retries) zero ctx takes calm h good =
      let next = called (put (tried ctx) ctx) in
      let again = retry_request retries (ask_once c {E = E} env routed payload) in
      let first : ctx.calls + 1 + 2 * 0 ≡ ctx.calls + 1 = omega arith in
      ap (λ t. (or_again t again).0) (accepted ctx (takes ctx.calls))
      ∙ or_again_ok (checked (env.receives (ctx.calls + 1)) next) again tt (
          good_lem (env.receives (ctx.calls + 1)) next
            (subst (λ k. IsGood c (env.receives k)) first good))
  retry_answered (suc retries) (suc i) ctx takes calm h good =
      let next = called (put (tried ctx) ctx) in
      let r = env.receives (ctx.calls + 1) in
      let again = retry_request retries (ask_once c {E = E} env routed payload) in
      let later : ctx.calls + 1 + 2 * suc i ≡ ctx.calls + 1 + 1 + 1 + 2 * i = omega arith in
      ap (λ t. (or_again t again).0) (accepted ctx (takes ctx.calls))
      ∙ elim (checked_cases r next (calm (ctx.calls + 1))) [
        | inl e ↦ or_again_ok (checked r next) again tt e
        | inr (e, failed) ↦
            ap (λ t. t.0) (or_again_err (checked r next) again e failed)
            ∙ ap (λ t. (again t).0) (checked_calls (expected common_generic_response r) next)
            ∙ retry_answered retries i next takes calm (omega (arith, h))
                (subst (λ k. IsGood c (env.receives k)) later good)
      ]

  -- When the channel takes every message and the other side answers one of the four tries with
  -- success, the request succeeds, whatever came of the tries before it.
  pub ask_with_retry-answered :
      (i : ℕ) (ctx : Context (payloads c) S)
      → ((k : ℕ) → env.accepts k ≡ true)
      → ((k : ℕ) → env.receives k ≢ panic)
      → i ≤ 3
      → IsGood c (env.receives (ctx.calls + 1 + 2 * i))
      → (ask_with_retry c {E = E} env routed payload ctx).0 ≡ ok tt
  unfolding ask_with_retry
  ask_with_retry-answered i ctx takes calm h good = retry_answered 3 i ctx takes calm h good
