-- ===== src/Workers/Requests.antt =====
-- src/handlers/operator_handler/operators/requests: requests that are answered with a `GenericResponse`
-- and are tried again up to three times (query/operator_instance_status_change.rs,
-- operator/operator_instance_status_change.rs, operator/shutdown.rs and
-- exchange/operator_status_change.rs).
pub mod Keeping
pub mod Tries
use chapterhouse_qe.Common.{ℕ, Option, none, some, Text, Outcome, ok, err}
use chapterhouse_qe.External.{External}
use chapterhouse_qe.Messages.Names.{common_generic_response}
use chapterhouse_qe.Messages.Payloads.{
  Codec, Payload, payloads, GenericResponse, ok_response, error_response, immediate, of_response,
  of_shutdown, of_operator_status, of_query_status, of_exchange_status,
}
use chapterhouse_qe.Messages.Payloads
use chapterhouse_qe.Messages.Message.{Message, set_route_to_operation_id}
use chapterhouse_qe.Workers.Actions.{
  Environment, Context, HandlerError, received_error_response, unable_to_cast_message, Action, pure,
  throw, ◌>>=◌, ◌>>◌, new_message, send_request, retry_request,
}

abbrev pub routed_to :
    {X : External} (c : Codec X) → ℕ → Message (payloads c) → Message (payloads c)
routed_to c id msg = set_route_to_operation_id msg id

module _ {X : External} (c : Codec X) {S E : Type 0} where
  -- What is done with the payload of the message that answers.
  unfoldable pub check_response : Payload X → Action (payloads c) S E (Unit {0})
  check_response (of_response ok_response) ctx = (ok tt, ctx)
  check_response (of_response (error_response text)) ctx = (err (received_error_response text), ctx)
  check_response _ ctx = (err unable_to_cast_message, ctx)

  module _ (env : Environment (payloads c)) where
    -- One try, with a new message.
    unfoldable pub ask_once :
        (Message (payloads c) → Message (payloads c))
        → Payload X
        → Action (payloads c) S E (Unit {0})
    unfolding send_request check_response
    ask_once routed payload ctx =
        (send_request env common_generic_response (routed (new_message env payload ctx))
            >>= λ resp_msg. check_response resp_msg.msg)
          ctx

    unfoldable pub ask_with_retry :
        (Message (payloads c) → Message (payloads c))
        → Payload X
        → Action (payloads c) S E (Unit {0})
    unfolding ask_once retry_request
    ask_with_retry routed payload = retry_request 3 (ask_once routed payload)

    -- `ShutdownRequest::shutdown_immediate_request`
    unfoldable pub shutdown_immediate_request : ℕ → Action (payloads c) S E (Unit {0})
    unfolding ask_with_retry set_route_to_operation_id
    shutdown_immediate_request route_to_operation_id =
        ask_with_retry (routed_to c route_to_operation_id) (of_shutdown immediate)

    -- `OperatorStatusChangeRequest::completed_request`
    unfoldable pub exchange_completed_request : ℕ → Text → Action (payloads c) S E (Unit {0})
    unfolding ask_with_retry set_route_to_operation_id
    exchange_completed_request route_to_operator_instance_id operator_id =
        ask_with_retry (routed_to c route_to_operator_instance_id)
          (of_exchange_status (Payloads.complete operator_id))

    -- `OperatorInstanceStatusChangeRequest` to the query handler
    unfoldable pub query_completed_request : ℕ → ℕ → Action (payloads c) S E (Unit {0})
    unfolding ask_with_retry
    query_completed_request query_id operator_instance_id =
        ask_with_retry (λ msg. msg)
          (of_query_status (Payloads.complete query_id operator_instance_id))

    unfoldable pub query_errored_request : ℕ → ℕ → Text → Action (payloads c) S E (Unit {0})
    unfolding ask_with_retry
    query_errored_request query_id operator_instance_id text =
        ask_with_retry (λ msg. msg)
          (of_query_status (Payloads.error query_id operator_instance_id text))

    -- `OperatorInstanceStatusChangeRequest` to the operator handler
    unfoldable pub operator_completed_request : Action (payloads c) S E (Unit {0})
    unfolding ask_with_retry
    operator_completed_request = ask_with_retry (λ msg. msg) (of_operator_status Payloads.complete)

    unfoldable pub operator_errored_request : Text → Action (payloads c) S E (Unit {0})
    unfolding ask_with_retry
    operator_errored_request text =
        ask_with_retry (λ msg. msg) (of_operator_status (Payloads.error text))
