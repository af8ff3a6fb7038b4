-- ===== src/Workers/Records.antt =====
-- src/handlers/operator_handler/operators/requests: the requests that an operator makes to an exchange
-- for its records (get_next_record_request.rs, send_record_request.rs,
-- operator_completed_record_processing_request.rs).
use chapterhouse_qe.Common.{ℕ, List, ◌==◌, if◌then◌else◌, Text, Outcome, ok, err}
use chapterhouse_qe.External.{External}
use chapterhouse_qe.Messages.Names.{exchange_requests}
use chapterhouse_qe.Messages.Payloads.{
  Codec, Payload, payloads, ExchangeRequests, get_next_record_response_record,
  get_next_record_response_none_left, get_next_record_response_none_available, send_record_response,
  operator_completed_record_processing_request, operator_completed_record_processing_response,
  of_exchange_requests,
}
use chapterhouse_qe.Messages.Payloads
use chapterhouse_qe.Messages.Message.{Message, set_route_to_worker_id, set_route_to_operation_id}
use chapterhouse_qe.Workers.Actions.{
  Environment, HandlerError, state_error, Action, ◌>>=◌, new_message, send_request, retry_request,
}

pub data GetNextRecordRequestError : Type 0 where
  received_the_wrong_message_type : GetNextRecordRequestError

pub data SendRecordRequestError : Type 0 where
  received_the_wrong_message_type : SendRecordRequestError
  response_record_id_does_not_match_the_request_record_id : ℕ → ℕ → SendRecordRequestError

pub data OperatorCompletedRecordProcessingRequestError : Type 0 where
  received_the_wrong_message_type : OperatorCompletedRecordProcessingRequestError

pub data GetNextRecordResponse (X : External) : Type 0 where
  next : ℕ → X.RecordBatch → List (List Text) → GetNextRecordResponse X
  none_left : GetNextRecordResponse X
  none_available : GetNextRecordResponse X

module _ {X : External} (c : Codec X) where
  -- The exchange that a request goes to: its worker and its instance there.
  abbrev pub to_exchange : ℕ → ℕ → Message (payloads c) → Message (payloads c)
  to_exchange worker_id instance_id msg =
      set_route_to_operation_id (set_route_to_worker_id msg worker_id) instance_id

  module _ {S E : Type 0} (env : Environment (payloads c)) (worker_id instance_id : ℕ) where
    -- One try, whose answer is read.
    unfoldable pub ask_exchange :
        {A : Type 0}
        → ExchangeRequests X
        → (Payload X → Outcome (HandlerError E) A)
        → Action (payloads c) S E A
    unfolding send_request set_route_to_worker_id set_route_to_operation_id
    ask_exchange request read ctx =
        (send_request env exchange_requests (
              to_exchange worker_id instance_id
                (new_message env (of_exchange_requests request) ctx))
            >>= λ resp_msg. λ after. (read resp_msg.msg, after))
          ctx

module _ {X : External} where
  unfoldable pub read_next_record :
      Payload X → Outcome (HandlerError GetNextRecordRequestError) (GetNextRecordResponse X)
  read_next_record (of_exchange_requests (get_next_record_response_record r batch aliases)) =
      ok (next r batch aliases)
  read_next_record (of_exchange_requests get_next_record_response_none_left) = ok none_left
  read_next_record (of_exchange_requests get_next_record_response_none_available) =
      ok none_available
  read_next_record _ = err (state_error GetNextRecordRequestError.received_the_wrong_message_type)

  unfoldable pub read_send_record :
      ℕ → Payload X → Outcome (HandlerError SendRecordRequestError) (Unit {0})
  read_send_record record_id (of_exchange_requests (send_record_response r)) =
      if r == record_id
      then ok tt
      else err (state_error (response_record_id_does_not_match_the_request_record_id r record_id))
  read_send_record record_id _ =
      err (state_error SendRecordRequestError.received_the_wrong_message_type)

  unfoldable pub read_completed_record :
      Payload X → Outcome (HandlerError OperatorCompletedRecordProcessingRequestError) (Unit {0})
  read_completed_record (of_exchange_requests operator_completed_record_processing_response) = ok tt
  read_completed_record _ =
      err
        (state_error OperatorCompletedRecordProcessingRequestError.received_the_wrong_message_type)

module _ {X : External} (c : Codec X) {S : Type 0} (env : Environment (payloads c))
    (exchange_worker_id exchange_operator_instance_id : ℕ) where
  unfoldable pub get_next_record_request :
      Text → Action (payloads c) S GetNextRecordRequestError (GetNextRecordResponse X)
  unfolding ask_exchange read_next_record retry_request
  get_next_record_request operator_id = retry_request 3 (
      ask_exchange c env exchange_worker_id exchange_operator_instance_id
        (Payloads.get_next_record_request operator_id) read_next_record)

  unfoldable pub send_record_request :
      ℕ → X.RecordBatch → List (List Text) → Action (payloads c) S SendRecordRequestError (Unit {0})
  unfolding ask_exchange read_send_record retry_request
  send_record_request record_id batch table_aliases = retry_request 3 (
      ask_exchange c env exchange_worker_id exchange_operator_instance_id
        (Payloads.send_record_request record_id batch table_aliases) (read_send_record record_id))

  unfoldable pub completed_record_request :
      Text → ℕ → Action (payloads c) S OperatorCompletedRecordProcessingRequestError (Unit {0})
  unfolding ask_exchange read_completed_record retry_request
  completed_record_request operator_id record_id = retry_request 3 (
      ask_exchange c env exchange_worker_id exchange_operator_instance_id
        (operator_completed_record_processing_request operator_id record_id) read_completed_record)
