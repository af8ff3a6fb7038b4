-- ===== src/Workers/Exchanges.antt =====
-- src/handlers/operator_handler/operators: the loop of `ExchangeOperator` over the messages that it gets
-- (exchange_operator.rs), with its handlers of Exchange/Operator, and the answer to a ping
-- (common_message_handlers.rs). `clock` is the time in each call.
pub mod Serving
use chapterhouse_qe.Common.{
  ℕ, Bool, true, false, List, [], ◌∷◌, if◌then◌else◌, Text, Outcome, ok, err, panic,
}
use chapterhouse_qe.External.{External}
use chapterhouse_qe.Exchange.Operator.{
  ExchangeOperator, ExchangeOperatorError, Request, Response, send_record, next_record,
  completed_record, record_sent, record_found, none_left, none_available, processing_noted,
  generic_ok, handle_operator_status_change, route_msg,
}
use chapterhouse_qe.Messages.Payloads.{
  Codec, Payload, payloads, ExchangeRequests, get_next_record_request,
  get_next_record_response_record, get_next_record_response_none_left,
  get_next_record_response_none_available, send_record_request, send_record_response,
  operator_completed_record_processing_request, operator_completed_record_processing_response, ping,
  pong, immediate, ok_response, of_ping, of_response, of_shutdown, of_exchange_status,
  of_exchange_requests,
}
use chapterhouse_qe.Messages.Payloads
use chapterhouse_qe.Messages.Message.{Message}
use chapterhouse_qe.Workers.Actions.{
  Environment, Context, HandlerError, state_error, Action, pure, and_then, modify, ◌>>=◌, ◌>>◌,
  reply,
}

-- What a reply carries.
unfoldable pub payload_of : {X : External} → Response X → Payload X
payload_of (record_sent r) = of_exchange_requests (send_record_response r)
payload_of (record_found (r, batch, aliases)) =
    of_exchange_requests (get_next_record_response_record r batch aliases)
payload_of none_left = of_exchange_requests get_next_record_response_none_left
payload_of none_available = of_exchange_requests get_next_record_response_none_available
payload_of processing_noted = of_exchange_requests operator_completed_record_processing_response
payload_of generic_ok = of_response ok_response

module _ {X : External} (c : Codec X) where
  abbrev pub Act : Type 0 → Type 0
  Act A = Action (payloads c) (ExchangeOperator X) ExchangeOperatorError A

  module _ (env : Environment (payloads c)) (clock : ℕ → ℕ) where
    abbrev pub answered :
        Message (payloads c)
        → Context (payloads c) (ExchangeOperator X)
        → ExchangeOperator X × Outcome ExchangeOperatorError (Response X)
        → Outcome (HandlerError ExchangeOperatorError) (Unit {0})
          × Context (payloads c) (ExchangeOperator X)
    answered msg ctx (s, ok response) =
        reply env msg (payload_of response) (record ctx { state = s })
    answered msg ctx (s, err e) = (err (state_error e), record ctx { state = s })
    answered msg ctx (s, panic) = (panic, record ctx { state = s })

    -- A handler that replies when it is done.
    unfoldable pub handle_request : Message (payloads c) → Request X → Act (Unit {0})
    unfolding route_msg payload_of reply
    handle_request msg request ctx =
        answered msg ctx (route_msg ctx.state request (clock ctx.calls))

    -- The one that replies early.
    unfoldable pub handle_status_change : Message (payloads c) → Text → Act (Unit {0})
    unfolding handle_operator_status_change reply
    handle_status_change msg operator_id = do
      reply env msg (of_response ok_response)
      modify (λ s. handle_operator_status_change s operator_id)

    -- `route_msg`: whether the message was for the exchange.
    unfoldable pub route_payload : Message (payloads c) → Payload X → Act Bool
    unfolding handle_request handle_status_change
    route_payload msg (of_exchange_requests (send_record_request r batch aliases)) =
        handle_request msg (send_record r batch aliases) >> pure true
    route_payload msg (of_exchange_requests (get_next_record_request operator_id)) =
        handle_request msg (next_record operator_id msg.sent_from_operation_id) >> pure true
    route_payload msg
          (of_exchange_requests (operator_completed_record_processing_request operator_id r)) =
        handle_request msg (completed_record operator_id r) >> pure true
    route_payload msg (of_exchange_status (Payloads.complete operator_id)) =
        handle_status_change msg operator_id >> pure true
    route_payload msg payload = pure false

    -- A turn of the loop: whether there is a next one.
    unfoldable pub turn : Message (payloads c) → Payload X → Act Bool
    unfolding route_payload reply
    turn msg (of_ping ping) = reply env msg (of_ping pong) >> pure true
    turn msg (of_shutdown immediate) = reply env msg (of_response ok_response) >> pure false
    turn msg payload = do routed ← route_payload msg payload; pure true

    -- The loop, over the messages that arrive until it is cancelled.
    unfoldable pub inner_async_main : List (Message (payloads c)) → Act (Unit {0})
    unfolding turn
    inner_async_main [] ctx = (ok tt, ctx)
    inner_async_main (msg ∷ msgs) ctx =
        and_then (turn msg msg.msg ctx) (λ on. if on then inner_async_main msgs else pure tt)
