-- ===== src/Workers/Shutdowns.antt =====
-- src/handlers/query_handler/query_handler.rs, `handle_operator_instance_status_change`: what follows when
-- all instances of a producer are complete.
pub mod Progress
pub mod Relaunch
use chapterhouse_qe.Common.{
  ℕ, suc, Bool, true, false, Option, none, some, List, [], ◌∷◌, map, if◌then◌else◌, Text, Outcome,
  ok, err, panic,
}
use chapterhouse_qe.External.{External}
use chapterhouse_qe.Planner.Sql.{Statement}
use chapterhouse_qe.Planner.LogicalPlanner
use chapterhouse_qe.Planner.Physical.Operators.{PhysicalPlan}
use chapterhouse_qe.Planner.Physical.Planner
use chapterhouse_qe.Messages.Payloads.{
  Codec, Payload, payloads, ok_response, QueryOperatorStatus, RunQuery, created, not_created,
  OperatorInstanceAvailable, notification, notification_response, QueryHandlerRequests,
  list_operator_instances_request, list_operator_instances_response, OperatorInstanceAssignment,
  assign, assign_accepted_response, assign_rejected_response, of_response, of_query_status,
  of_run_query, of_run_query_resp, of_available, of_assignment, of_query_requests,
}
use chapterhouse_qe.Messages.Payloads
use chapterhouse_qe.Messages.Message.{Message}
use chapterhouse_qe.Messages.Message
use chapterhouse_qe.Workers.Actions.{
  Environment, Context, HandlerError, state_error, incorrect_message, planner_out_of_fuel, Action,
  pure, throw, ◌>>=◌, ◌>>◌, ask, update, modify, for_each, new_message, send, send_all, reply,
}
use chapterhouse_qe.Workers.Requests.{shutdown_immediate_request, exchange_completed_request}
use chapterhouse_qe.Workers.Queries.{
  QueryHandlerState, QueryHandlerStateError, Status, queued, sending_to_worker, running,
  sent_shutdown, complete, error, OperatorInstance, Query, new_query, init, add_query, find_query,
  find_operator_instance, get_operator_instances, update_operator_instance_status,
  update_query_status,
}
use chapterhouse_qe.Workers.Queries.Exchanges.{
  operator_instance_is_producer, all_operator_instances_complete, get_outbound_exchange_id,
  get_exchange_ids_without_any_consumers,
}
use chapterhouse_qe.Workers.Queries.Claims.{Claim, claim_operator_instances_up_to_compute_available}
use chapterhouse_qe.Workers.Planned.{Outside}

module _ {X : External} (c : Codec X) where
  abbrev pub Act : Type 0 → Type 0
  Act A = Action (payloads c) (QueryHandlerState X) QueryHandlerStateError A

  module _ (env : Environment (payloads c)) (out : Outside X) where
    abbrev pub now_status : Context (payloads c) (QueryHandlerState X) → Status
    now_status ctx = sent_shutdown (out.now ctx.calls)

    -- One turn of the loop over the instances of an exchange that is shut down.
    unfoldable pub shut_down_instance : ℕ → OperatorInstance → Act (Unit {0})
    unfolding shutdown_immediate_request update_operator_instance_status
    shut_down_instance query_id exchange_instance = do
      shutdown_immediate_request c env exchange_instance.id
      λ ctx.
          update
            (λ s. update_operator_instance_status s query_id exchange_instance.id (now_status ctx))
            ctx

    unfoldable pub shut_down_exchange : ℕ → Text → Act (Unit {0})
    unfolding shut_down_instance get_operator_instances
    shut_down_exchange query_id exchange_id = do
      instances ← ask (λ s. get_operator_instances s query_id exchange_id)
      for_each instances (shut_down_instance query_id)

    -- What follows when all instances of a producer are complete.
    unfoldable pub notify_exchanges : ℕ → ℕ → Act (Unit {0})
    unfolding find_query find_operator_instance get_outbound_exchange_id get_operator_instances
        exchange_completed_request get_exchange_ids_without_any_consumers shut_down_exchange
    notify_exchanges query_id op_in_id = do
      query ← ask (λ s. find_query s query_id)
      op_in ← ask (λ s. find_operator_instance query op_in_id)
      outbound_exchange_id ← ask (λ s. get_outbound_exchange_id s query_id op_in_id)
      instances ← ask (λ s. get_operator_instances s query_id outbound_exchange_id)
      for_each instances (λ exchange_instance.
          exchange_completed_request c env exchange_instance.id op_in.operator_id)
      exchange_ids ← ask (λ s. get_exchange_ids_without_any_consumers s query_id)
      for_each exchange_ids (shut_down_exchange query_id)
