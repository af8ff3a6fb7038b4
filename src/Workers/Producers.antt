-- ===== src/Workers/Producers.antt =====
-- src/handlers/operator_handler/operators/producer_operator.rs, `ProducerOperator`: its loop between the
-- router, the task and the task's end. The channel to the task is a list of what it was given, and
-- `task_accepts k` says whether it takes a message in the k-th call.
use chapterhouse_qe.Common.{
  ℕ, Bool, true, false, Option, none, some, List, [], ◌∷◌, ◌++◌, if◌then◌else◌, Text, Outcome, ok,
  err,
}
use chapterhouse_qe.External.{External}
use chapterhouse_qe.Messages.Payloads.{Codec, Payload, payloads, ping, pong, of_ping}
use chapterhouse_qe.Messages.Message.{Message}
use chapterhouse_qe.Messages.Pipe.{Pipe, timed_out_waiting_for_message_to_send, outgoing}
use chapterhouse_qe.Workers.Actions.{
  Environment, Context, HandlerError, pipe_error, Action, pure, and_then, called, ◌>>◌, send, reply,
}
use chapterhouse_qe.Workers.Requests.{operator_completed_request, operator_errored_request}

-- What `task_res` brings: the task has ended well, with an error, or without a word.
pub data TaskResult : Type 0 where
  succeeded : TaskResult
  failed : Text → TaskResult
  dropped : TaskResult

module _ {X : External} (c : Codec X) where
  pub record ProducerOperator : Type 0 where
    pub task_pipe : Pipe (payloads c)
    pub task_queue : List (Message (payloads c))
    pub task_msg_consumer : Option (Message (payloads c) → Bool)

  -- What wakes the loop.
  pub data Event : Type 0 where
    from_router : Message (payloads c) → Event
    from_task : Message (payloads c) → Event
    task_ended : TaskResult → Event
    cancelled : Event

  -- The producer has no errors of its own here.
  abbrev pub Act : Type 0 → Type 0
  Act A = Action (payloads c) ProducerOperator ⊥ A

  abbrev pub given :
      Bool
      → Message (payloads c)
      → Context (payloads c) ProducerOperator
      → Outcome (HandlerError ⊥) (Unit {0}) × Context (payloads c) ProducerOperator
  given false msg ctx = (err (pipe_error timed_out_waiting_for_message_to_send), called ctx)
  given true msg ctx = (
    ok tt,
    called (record ctx {
      state = record ctx.state { task_queue = ctx.state.task_queue ++ (msg ∷ []) };
    }),
  )

  module _ (env : Environment (payloads c)) (task_accepts : ℕ → Bool) where
    unfoldable pub to_task : Message (payloads c) → Act (Unit {0})
    unfolding outgoing
    to_task msg ctx = given (task_accepts ctx.calls) (outgoing ctx.state.task_pipe msg) ctx

    -- A ping is answered, and goes on to the task like any other message.
    unfoldable pub answer_ping : Message (payloads c) → Payload X → Act (Unit {0})
    unfolding reply
    answer_ping msg (of_ping ping) = reply env msg (of_ping pong)
    answer_ping msg payload = pure tt

    unfoldable pub pass_to_task : Message (payloads c) → Act (Unit {0})
    unfolding to_task
    pass_to_task msg ctx = elim ctx.state.task_msg_consumer [
      | none ↦ to_task msg ctx
      | some consumes ↦ if consumes msg then to_task msg ctx else (ok tt, ctx)
    ]

    -- A turn of the loop: whether there is a next one.
    unfoldable pub turn : Event → Act Bool
    unfolding answer_ping pass_to_task send operator_completed_request operator_errored_request
    turn (from_router msg) = do answer_ping msg msg.msg; pass_to_task msg; pure true
    turn (from_task msg) = send env msg >> pure true
    turn (task_ended succeeded) = operator_completed_request c env >> pure false
    turn (task_ended (failed text)) = operator_errored_request c env text >> pure false
    turn (task_ended dropped) = pure false
    turn cancelled = pure false

    unfoldable pub inner_async_main : List Event → Act (Unit {0})
    unfolding turn
    inner_async_main [] ctx = (ok tt, ctx)
    inner_async_main (event ∷ events) ctx =
        and_then (turn event ctx) (λ on. if on then inner_async_main events else pure tt)
