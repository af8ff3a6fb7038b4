-- ===== src/Workers/Subscribers.antt =====
-- Which messages the subscribers consume: src/handlers/query_handler/query_handler.rs,
-- src/handlers/operator_handler/operator_handler.rs and, in its folder operators, producer_operator.rs
-- and exchange_operator.rs. The numbers are the ids of the operators and of the query.
pub mod Handlers
use chapterhouse_qe.Common.{ℕ, Bool, true, false, not, ◌&&◌, ◌||◌, Option, if◌then◌else◌}
use chapterhouse_qe.External.{External}
use chapterhouse_qe.Messages.Payloads.{
  Codec, Payload, payloads, GenericResponse, ping, pong, notification, notification_response,
  assign, assign_accepted_response, assign_rejected_response, list_operator_instances_request,
  list_operator_instances_response, get_next_record_request, send_record_request,
  operator_completed_record_processing_request, of_ping, of_response, of_shutdown,
  of_operator_status, of_query_status, of_run_query, of_available, of_assignment, of_query_requests,
  of_exchange_status, of_exchange_requests,
}
use chapterhouse_qe.Messages.Message.{Message}
use chapterhouse_qe.Messages.Router.{InternalSubscriber, is_id, is_absent}

module _ {X : External} (c : Codec X) where
  -- A message for another operator of this worker.
  abbrev misrouted : ℕ → Message (payloads c) → Bool
  misrouted operator_id msg =
      not (is_absent msg.route_to_connection_id)
      || not (is_id operator_id msg.route_to_operation_id)

  unfoldable pub query_handler_consumes : ℕ → Message (payloads c) → Bool
  query_handler_consumes operator_id msg = elim msg.msg [
    | of_run_query m ↦ true
    | of_available (notification_response can_accept_up_to) ↦ true
    | of_available notification ↦ false
    | of_assignment (assign_accepted_response query_id op_in_id pipeline_id) ↦ true
    | of_assignment (assign_rejected_response query_id op_in_id pipeline_id text) ↦ true
    | of_assignment (assign query_id op_in_id pipeline_id operator) ↦ false
    | of_query_requests (list_operator_instances_request query_id operator_id) ↦ true
    | of_query_requests (list_operator_instances_response ids) ↦ false
    | of_query_status m ↦ true
    | of_response m ↦ not (is_absent msg.sent_from_connection_id && misrouted operator_id msg)
    | _ ↦ false
  ]

  unfoldable pub operator_handler_consumes : ℕ → Message (payloads c) → Bool
  operator_handler_consumes operator_id msg = elim msg.msg [
    | of_available notification ↦ true
    | of_available (notification_response can_accept_up_to) ↦ false
    | of_assignment (assign query_id op_in_id pipeline_id operator) ↦ true
    | of_assignment (assign_accepted_response query_id op_in_id pipeline_id) ↦ false
    | of_assignment (assign_rejected_response query_id op_in_id pipeline_id text) ↦ false
    | of_operator_status m ↦ true
    | of_response m ↦ not (misrouted operator_id msg)
    | _ ↦ false
  ]

  abbrev other_id : ℕ → Option ℕ → Bool
  other_id id o = not (is_absent o) && not (is_id id o)

  unfoldable pub producer_consumes : ℕ → ℕ → Message (payloads c) → Bool
  producer_consumes operator_instance_id query_id msg =
      if is_absent msg.route_to_operation_id && is_absent msg.sent_from_query_id
      then false
      else not (
          other_id operator_instance_id msg.route_to_operation_id
          || other_id query_id msg.sent_from_query_id)

  unfoldable pub exchange_consumes : ℕ → ℕ → Message (payloads c) → Bool
  unfolding producer_consumes
  exchange_consumes operator_instance_id query_id msg =
      producer_consumes operator_instance_id query_id msg && elim msg.msg [
        | of_ping ping ↦ true
        | of_exchange_requests (send_record_request record_id batch table_aliases) ↦ true
        | of_exchange_requests (get_next_record_request operator_id) ↦ true
        | of_exchange_requests
              (operator_completed_record_processing_request operator_id record_id) ↦
            true
        | of_exchange_status m ↦ true
        | of_shutdown m ↦ true
        | _ ↦ false
      ]

  unfoldable pub query_handler_subscriber : ℕ → InternalSubscriber (payloads c)
  unfolding query_handler_consumes
  query_handler_subscriber id = record {
    operator_id = id;
    consumes_message = query_handler_consumes id;
  }

  unfoldable pub operator_handler_subscriber : ℕ → InternalSubscriber (payloads c)
  unfolding operator_handler_consumes
  operator_handler_subscriber id = record {
    operator_id = id;
    consumes_message = operator_handler_consumes id;
  }

  unfoldable pub producer_subscriber : ℕ → ℕ → InternalSubscriber (payloads c)
  unfolding producer_consumes
  producer_subscriber id query_id = record {
    operator_id = id;
    consumes_message = producer_consumes id query_id;
  }

  unfoldable pub exchange_subscriber : ℕ → ℕ → InternalSubscriber (payloads c)
  unfolding exchange_consumes
  exchange_subscriber id query_id = record {
    operator_id = id;
    consumes_message = exchange_consumes id query_id;
  }
