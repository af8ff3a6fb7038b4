-- ===== src/Exchange/Operator.antt =====
-- src/handlers/operator_handler/operators/exchange_operator.rs, `ExchangeOperator`: what its handlers do
-- to the pool and to the states of the producers, and what they reply. The pipe that a reply is sent on,
-- a ping and a shutdown are those of Workers/Exchanges.
pub mod Draining
pub mod Resending
use chapterhouse_qe.Common.{
  ℕ, Bool, true, false, not, Option, none, some, List, [], ◌∷◌, map, any, if◌then◌else◌, Text,
  text_eq, Outcome, ok, err, panic,
}
use chapterhouse_qe.External.{External}
use chapterhouse_qe.Planner.Physical.Operators.{OperatorType, producer, exchange}
use chapterhouse_qe.Exchange.Pool.{
  RecordPool, RecordPoolError, Delivery, add_record, get_next_record,
  operator_completed_record_processing,
}
use chapterhouse_qe.Exchange.Pool

pub data Status : Type 0 where
  complete running : Status

abbrev pub is_complete : Status → Bool
is_complete complete = true
is_complete running = false

pub data ExchangeOperatorError : Type 0 where
  invalid_operator_type : ExchangeOperatorError
  operation_instance_id_not_set_on_message : ExchangeOperatorError
  record_pool : RecordPoolError → ExchangeOperatorError

pub record ProducerOperatorStatus : Type 0 where
  pub operator_id : Text
  pub status : Status

module _ (X : External) where
  pub record ExchangeOperator : Type 0 where
    pub record_pool : RecordPool X
    pub inbound_producer_operator_states : List ProducerOperatorStatus
    pub received_all_data_from_producers : Bool

  -- The messages that `route_msg` hands to a handler; the second argument of a request for a record is
  -- the operation that it was sent from.
  pub data Request : Type 0 where
    send_record : ℕ → X.RecordBatch → List (List Text) → Request
    next_record : Text → Option ℕ → Request
    completed_record : Text → ℕ → Request
    operator_complete : Text → Request

  pub data Response : Type 0 where
    record_sent : ℕ → Response
    record_found : Delivery X → Response
    none_left : Response
    none_available : Response
    processing_noted : Response
    generic_ok : Response

-- Every state with the id is complete.
unfoldable pub complete_state : Text → ProducerOperatorStatus → ProducerOperatorStatus
complete_state operator_id item =
    if text_eq item.operator_id operator_id then record item { status = complete } else item

unfoldable pub running_state : Text → ProducerOperatorStatus
running_state operator_id = record { operator_id = operator_id; status = running }

module _ {X : External} where
  unfoldable pub new : OperatorType X → Outcome ExchangeOperatorError (ExchangeOperator X)
  unfolding running_state Pool.new
  new (producer task out ins) = err invalid_operator_type
  new (exchange task outs ins) = ok (record {
    record_pool = Pool.new outs 10;
    inbound_producer_operator_states = map running_state ins;
    received_all_data_from_producers = false;
  })

  unfoldable pub handle_send_record_request :
      ExchangeOperator X
      → ℕ
      → X.RecordBatch
      → List (List Text)
      → ExchangeOperator X × Outcome ExchangeOperatorError (Response X)
  handle_send_record_request s record_id batch table_aliases = (
    record s { record_pool = add_record s.record_pool record_id batch table_aliases },
    ok (record_sent record_id),
  )

  abbrev pub reply_next :
      Bool
      → Outcome RecordPoolError (Option (Delivery X))
      → Outcome ExchangeOperatorError (Response X)
  reply_next received_all (ok (some found)) = ok (record_found found)
  reply_next received_all (ok none) = if received_all then ok none_left else ok none_available
  reply_next received_all (err e) = err (record_pool e)
  reply_next received_all panic = panic

  unfoldable pub handle_get_next_record_request :
      ExchangeOperator X
      → Text
      → Option ℕ
      → ℕ
      → ExchangeOperator X × Outcome ExchangeOperatorError (Response X)
  handle_get_next_record_request s operator_id none now =
      (s, err operation_instance_id_not_set_on_message)
  handle_get_next_record_request s operator_id (some op_in_id) now =
      let r = get_next_record s.record_pool operator_id op_in_id now in
      (record s { record_pool = r.0 }, reply_next s.received_all_data_from_producers r.1)

  abbrev pub reply_completed :
      Outcome RecordPoolError (Unit {0}) → Outcome ExchangeOperatorError (Response X)
  reply_completed (ok u) = ok processing_noted
  reply_completed (err e) = err (record_pool e)
  reply_completed panic = panic

  unfoldable pub handle_operator_completed_record_processing_request :
      ExchangeOperator X
      → Text
      → ℕ
      → ExchangeOperator X × Outcome ExchangeOperatorError (Response X)
  handle_operator_completed_record_processing_request s operator_id record_id =
      let r = operator_completed_record_processing s.record_pool operator_id record_id in
      (record s { record_pool = r.0 }, reply_completed r.1)

  unfoldable pub handle_operator_status_change : ExchangeOperator X → Text → ExchangeOperator X
  unfolding complete_state
  handle_operator_status_change s operator_id =
      let states = map (complete_state operator_id) s.inbound_producer_operator_states in
      record s {
        inbound_producer_operator_states = states;
        received_all_data_from_producers =
            if not (any (λ item. not (is_complete item.status)) states)
            then true
            else s.received_all_data_from_producers;
      }

  -- `route_msg` at a time.
  unfoldable pub route_msg :
      ExchangeOperator X
      → Request X
      → ℕ
      → ExchangeOperator X × Outcome ExchangeOperatorError (Response X)
  unfolding handle_send_record_request handle_get_next_record_request
      handle_operator_completed_record_processing_request handle_operator_status_change
  route_msg s (send_record r batch aliases) now = handle_send_record_request s r batch aliases
  route_msg s (next_record op sender) now = handle_get_next_record_request s op sender now
  route_msg s (completed_record op r) now =
      handle_operator_completed_record_processing_request s op r
  route_msg s (operator_complete op) now = (handle_operator_status_change s op, ok generic_ok)
