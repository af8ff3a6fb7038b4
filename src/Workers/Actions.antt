-- ===== src/Workers/Actions.antt =====
-- How a handler acts: it changes its state, sends messages through its pipe, and may fail, as Rust's
-- asynchronous functions do that return a `Result`; src/handlers/message_handler/comms.rs (`send`,
-- `send_all`, `send_request`) and src/handlers/operator_handler/operators/requests/retry.rs. What the
-- channels do is answered by an environment, one answer for each call; the pauses between tries are
-- left out.
pub mod Keeping
use chapterhouse_qe.Common.{
  ℕ, zero, suc, ◌+◌, Bool, true, false, Option, none, some, List, [], ◌∷◌, ◌++◌, if◌then◌else◌,
  Text, Outcome, ok, err, panic,
}
use chapterhouse_qe.Messages.Names.{MessageName}
use chapterhouse_qe.Messages.Message.{Payloads, Message, new}
use chapterhouse_qe.Messages.Message
use chapterhouse_qe.Messages.Pipe.{
  Pipe, PipeError, timed_out_waiting_for_message_to_send, outgoing, expected,
}

-- `accepts k` says whether the channel takes the message of the k-th call, `receives k` what
-- `recv_request` returns in it; the ids are those of a message that is made in it.
pub record Environment (P : Payloads) : Type 0 where
  pub pipe : Pipe P
  pub accepts : ℕ → Bool
  pub receives : ℕ → Outcome PipeError (Option (Message P))
  pub msg_id : ℕ → ℕ
  pub request_id : ℕ → ℕ

pub record Context (P : Payloads) (S : Type 0) : Type 0 where
  pub state : S
  pub sent : List (Message P)
  pub calls : ℕ

-- What `anyhow::Error` carries, where the errors of the state, or of the request, are of type `E`;
-- `planner_out_of_fuel` stands for a planner that goes on longer than its fuel.
pub data HandlerError (E : Type 0) : Type 0 where
  state_error : E → HandlerError E
  incorrect_message : HandlerError E
  missing_operator_instance_id : HandlerError E
  missing_query_id : HandlerError E
  pipe_error : PipeError → HandlerError E
  channel_send_error : HandlerError E
  unable_to_cast_message : HandlerError E
  planner_out_of_fuel : HandlerError E
  received_error_response : Text → HandlerError E

abbrev pub of_state : {E A : Type 0} → Outcome E A → Outcome (HandlerError E) A
of_state (ok a) = ok a
of_state (err e) = err (state_error e)
of_state panic = panic

abbrev pub of_pipe : {E A : Type 0} → Outcome PipeError A → Outcome (HandlerError E) A
of_pipe (ok a) = ok a
of_pipe (err e) = err (pipe_error e)
of_pipe panic = panic

module _ {P : Payloads} {S : Type 0} where
  abbrev pub called : Context P S → Context P S
  called ctx = record ctx { calls = ctx.calls + 1 }

  abbrev pub put : Message P → Context P S → Context P S
  put msg ctx = record ctx { sent = ctx.sent ++ (msg ∷ []); calls = ctx.calls + 1 }

  -- `Message::new`.
  abbrev pub new_message : Environment P → P.Sendable → Context P S → Message P
  new_message env payload ctx = new (env.msg_id ctx.calls) (env.request_id ctx.calls) payload

module _ (P : Payloads) (S E : Type 0) where
  abbrev pub Action : Type 0 → Type 0
  Action A = Context P S → Outcome (HandlerError E) A × Context P S

module _ {P : Payloads} {S E : Type 0} where
  abbrev pub pure : {A : Type 0} → A → Action P S E A
  pure a ctx = (ok a, ctx)

  abbrev pub throw : {A : Type 0} → HandlerError E → Action P S E A
  throw e ctx = (err e, ctx)

  abbrev pub and_then :
      {A B : Type 0}
      → Outcome (HandlerError E) A × Context P S
      → (A → Action P S E B)
      → Outcome (HandlerError E) B × Context P S
  and_then (ok a, ctx) f = f a ctx
  and_then (err e, ctx) f = (err e, ctx)
  and_then (panic, ctx) f = (panic, ctx)

  infixl 5 ◌>>=◌ ◌>>◌
  abbrev pub ◌>>=◌ : {A B : Type 0} → Action P S E A → (A → Action P S E B) → Action P S E B
  (m >>= f) ctx = and_then (m ctx) f

  abbrev pub ◌>>◌ : {B : Type 0} → Action P S E (Unit {0}) → Action P S E B → Action P S E B
  m >> n = m >>= λ _. n

  -- A method of the state that takes `&self`, and `?`.
  abbrev pub ask : {A : Type 0} → (S → Outcome E A) → Action P S E A
  ask f ctx = (of_state (f ctx.state), ctx)

  abbrev pub changed : Context P S → Outcome E S → Outcome (HandlerError E) (Unit {0}) × Context P S
  changed ctx (ok s) = (ok tt, record ctx { state = s })
  changed ctx (err e) = (err (state_error e), ctx)
  changed ctx panic = (panic, ctx)

  -- One that takes `&mut self` and may fail, and then changes nothing.
  abbrev pub update : (S → Outcome E S) → Action P S E (Unit {0})
  update f ctx = changed ctx (f ctx.state)

  -- One that does not fail.
  abbrev pub modify : (S → S) → Action P S E (Unit {0})
  modify f ctx = (ok tt, record ctx { state = f ctx.state })

  -- A `for` loop with `?` in its body.
  abbrev pub for_each :
      {A : Type 0} → List A → (A → Action P S E (Unit {0})) → Action P S E (Unit {0})
  for_each [] f = pure tt
  for_each (x ∷ xs) f = f x >> for_each xs f

  abbrev pub sent_if :
      Bool → Message P → Context P S → Outcome (HandlerError E) (Unit {0}) × Context P S
  sent_if true msg ctx = (ok tt, put msg ctx)
  sent_if false msg ctx = (err (pipe_error timed_out_waiting_for_message_to_send), called ctx)

  module _ (env : Environment P) where
    unfoldable pub send : Message P → Action P S E (Unit {0})
    unfolding outgoing
    send msg ctx = sent_if (env.accepts ctx.calls) (outgoing env.pipe msg) ctx

    -- One turn of the loop of `send_all`, which does not write the ids of the pipe into a message.
    unfoldable pub send_one : Message P → Action P S E (Unit {0})
    send_one msg ctx = elim (env.accepts ctx.calls) [
      | true ↦ (ok tt, put msg ctx)
      | false ↦ (err channel_send_error, called ctx)
    ]

    unfoldable pub send_all : List (Message P) → Action P S E (Unit {0})
    unfolding send_one
    send_all msgs = for_each msgs send_one

    abbrev pub await : MessageName → Action P S E (Message P)
    await name ctx = (of_pipe (expected name (env.receives ctx.calls)), called ctx)

    unfoldable pub send_request : MessageName → Message P → Action P S E (Message P)
    unfolding send
    send_request name msg = do send msg; await name

    unfoldable pub reply : Message P → P.Sendable → Action P S E (Unit {0})
    unfolding send Message.reply
    reply msg payload ctx =
        send (Message.reply (env.msg_id ctx.calls) (env.request_id ctx.calls) msg payload) ctx

  abbrev pub or_again :
      {A : Type 0}
      → Outcome (HandlerError E) A × Context P S
      → Action P S E A
      → Outcome (HandlerError E) A × Context P S
  or_again (ok a, ctx) again = (ok a, ctx)
  or_again (err e, ctx) again = again ctx
  or_again (panic, ctx) again = (panic, ctx)

  -- `retry_request!` with a number of further tries: the last error is the one that is returned.
  unfoldable pub retry_request : {A : Type 0} → ℕ → Action P S E A → Action P S E A
  retry_request zero try ctx = try ctx
  retry_request (suc retries) try ctx = or_again (try ctx) (retry_request retries try)
