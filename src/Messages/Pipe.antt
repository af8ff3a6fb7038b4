-- ===== src/Messages/Pipe.antt =====
-- src/handlers/message_handler/comms.rs, `Pipe`: the messages that it keeps while it waits for a reply.
-- What the channel yields is a list: the messages that arrive, and then its end or the timeout. The
-- messages that a call does not take from the channel are returned beside its result.
pub mod Replies
use chapterhouse_qe.Common.{
  ℕ, ◌+◌, Bool, Option, none, some, List, [], ◌∷◌, ◌++◌, ◌==◌, ltb, if◌then◌else◌, length, Outcome,
  ok, err, panic,
}
use chapterhouse_qe.Messages.Names.{MessageName, as_u16}
use chapterhouse_qe.Messages.Message.{Payloads, Message}

pub data PipeError : Type 0 where
  timed_out_waiting_for_message_to_send : PipeError
  timed_out_waiting_for_message_with_request_id : ℕ → PipeError
  queue_has_reach_max_capacity : ℕ → PipeError
  channel_closed : PipeError
  request_received_unexpected_message_name : MessageName → MessageName → PipeError

-- How the wait for further messages ends.
pub data Ending : Type 0 where
  closed : Ending
  timed_out : Ending

pub record Pipe (P : Payloads) : Type 0 where
  pub sent_from_query_id : Option ℕ
  pub sent_from_operation_id : Option ℕ
  pub msg_queue : List (Message P)
  pub max_msg_queue_length : ℕ

pub record Received (P : Payloads) : Type 0 where
  pub msg_queue : List (Message P)
  pub result : Outcome PipeError (Option (Message P))
  pub rest : List (Message P)

abbrev pub or_set : Option ℕ → Option ℕ → Option ℕ
or_set none old = old
or_set (some id) old = some id

module _ {P : Payloads} where
  unfoldable pub new : Pipe P
  new = record {
    sent_from_query_id = none;
    sent_from_operation_id = none;
    msg_queue = [];
    max_msg_queue_length = 100;
  }

  -- What `send` puts on the channel.
  unfoldable pub outgoing : Pipe P → Message P → Message P
  outgoing p msg = record msg {
    sent_from_query_id = or_set p.sent_from_query_id msg.sent_from_query_id;
    sent_from_operation_id = or_set p.sent_from_operation_id msg.sent_from_operation_id;
  }

  abbrev pub of_front : List (Message P) → List (Message P) → Received P
  of_front [] [] = record { msg_queue = []; result = ok none; rest = [] }
  of_front [] (msg ∷ rest) = record { msg_queue = []; result = ok (some msg); rest = rest }
  of_front (msg ∷ queue) arrivals = record {
    msg_queue = queue;
    result = ok (some msg);
    rest = arrivals;
  }

  -- `recv` on a channel that ends behind what arrives.
  unfoldable pub recv : Pipe P → List (Message P) → Received P
  recv p arrivals = of_front p.msg_queue arrivals

  abbrev pub keep :
      Message P → Option (Message P × List (Message P)) → Option (Message P × List (Message P))
  keep msg none = none
  keep msg (some (found, others)) = some (found, msg ∷ others)

  -- The first message of a request, and the others.
  unfoldable pub take_request : ℕ → List (Message P) → Option (Message P × List (Message P))
  take_request request_id [] = none
  take_request request_id (msg ∷ msgs) =
      if msg.request_id == request_id
      then some (msg, msgs)
      else keep msg (take_request request_id msgs)

  abbrev pub ended : ℕ → Ending → Outcome PipeError (Option (Message P))
  ended request_id closed = ok none
  ended request_id timed_out = err (timed_out_waiting_for_message_with_request_id request_id)

  -- The loop: a message that finds the queue full is lost with the error.
  unfoldable pub wait : ℕ → ℕ → List (Message P) → List (Message P) → Ending → Received P
  wait request_id most queue [] ending = record {
    msg_queue = queue;
    result = ended request_id ending;
    rest = [];
  }
  wait request_id most queue (msg ∷ msgs) ending =
      let next = wait request_id most (queue ++ (msg ∷ [])) msgs ending in
      if msg.request_id == request_id
      then record { msg_queue = queue; result = ok (some msg); rest = msgs }
      else if ltb (length queue) most
      then next
      else record {
        msg_queue = queue;
        result = err (queue_has_reach_max_capacity most);
        rest = msgs;
      }

  unfoldable pub recv_request : Pipe P → ℕ → List (Message P) → Ending → Received P
  unfolding take_request wait
  recv_request p request_id arrivals ending = elim (take_request request_id p.msg_queue) [
    | some (msg, others) ↦ record { msg_queue = others; result = ok (some msg); rest = arrivals }
    | none ↦ wait request_id p.max_msg_queue_length p.msg_queue arrivals ending
  ]

  -- The number of an answer's name is compared, as the names are.
  abbrev pub expected :
      MessageName → Outcome PipeError (Option (Message P)) → Outcome PipeError (Message P)
  expected name (ok (some msg)) =
      if as_u16 (P.msg_name msg.msg) == as_u16 name
      then ok msg
      else err (request_received_unexpected_message_name name (P.msg_name msg.msg))
  expected name (ok none) = err channel_closed
  expected name (err e) = err e
  expected name panic = panic
