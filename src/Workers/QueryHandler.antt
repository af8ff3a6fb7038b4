-- ===== src/Workers/QueryHandler.antt =====
-- src/handlers/query_handler/query_handler.rs, `QueryHandler`: the handlers of its messages, over the
-- state of Workers/Queries. The SQL parser, new ids and the clock are given by `Outside`.
pub mod Progress
pub mod Statuses
use chapterhouse_qe.Common.{
  ℕ, suc, Bool, true, false, Option, none, some, List, [], ◌∷◌, map, if◌then◌else◌, Text, Outcome,
  ok, err, panic,
}
use chapterhouse_qe.External.{External}
use chapterhouse_qe.Planner.Sql.{Statement}
use chapterhouse_qe.Planner.LogicalPlanner
use chapterhouse_qe.Planner.Physical.Operators.{PhysicalPlan}
use chapterhouse_qe.Planner.Physical.Planner
use chapterhouse_qe.Messages.Payloads.{
  Codec, Payload, payloads, ok_response, QueryOperatorStatus, RunQuery, created, not_created,
  OperatorInstanceAvailable, notification, notification_response, QueryHandlerRequests,
  list_operator_instances_request, list_operator_instances_response, OperatorInstanceAssignment,
  assign, assign_accepted_response, assign_rejected_response, of_response, of_query_status,
  of_run_query, of_run_query_resp, of_available, of_assignment, of_query_requests,
}
use chapterhouse_qe.Messages.Payloads
use chapterhouse_qe.Messages.Message.{Message}
use chapterhouse_qe.Messages.Message
use chapterhouse_qe.Workers.Actions.{
  Environment, Context, HandlerError, state_error, incorrect_message, planner_out_of_fuel, Action,
  pure, throw, ◌>>=◌, ◌>>◌, ask, update, modify, for_each, new_message, send, send_all, reply,
}
use chapterhouse_qe.Workers.Requests.{shutdown_immediate_request, exchange_completed_request}
use chapterhouse_qe.Workers.Queries.{
  QueryHandlerState, QueryHandlerStateError, Status, queued, sending_to_worker, running,
  sent_shutdown, complete, error, OperatorInstance, Query, new_query, init, add_query, find_query,
  find_operator_instance, get_operator_instances, update_operator_instance_status,
  update_query_status,
}
use chapterhouse_qe.Workers.Queries.Exchanges.{
  operator_instance_is_producer, all_operator_instances_complete, get_outbound_exchange_id,
  get_exchange_ids_without_any_consumers,
}
use chapterhouse_qe.Workers.Queries.Claims.{Claim, claim_operator_instances_up_to_compute_available}
use chapterhouse_qe.Workers.Planned.{
  Outside, plan, no_plan, planner_panics, planner_goes_on, plan_query,
}
use chapterhouse_qe.Workers.Shutdowns.{Act, notify_exchanges}

abbrev pub is_queued : Status → Bool
is_queued queued = true
is_queued sending_to_worker = false
is_queued running = false
is_queued (sent_shutdown time) = false
is_queued complete = false
is_queued (error text) = false

module _ {X : External} where
  abbrev pub assign_claim : Claim X → OperatorInstanceAssignment X
  assign_claim item = assign item.query_id item.op_in.id item.op_in.pipeline_id item.operator

module _ {X : External} (c : Codec X) where
  -- The claim changes the state and cannot fail.
  abbrev pub claimed :
      Context (payloads c) (QueryHandlerState X)
      → QueryHandlerState X × List (Claim X)
      → Outcome (HandlerError QueryHandlerStateError) (List (Claim X))
        × Context (payloads c) (QueryHandlerState X)
  claimed ctx (s, claims) = (ok claims, record ctx { state = s })

  abbrev pub goes_on : Outcome (HandlerError QueryHandlerStateError) (Unit {0}) → Bool
  goes_on (ok done) = true
  goes_on (err (state_error e)) = true
  goes_on (err e) = false
  goes_on panic = false

  module _ (env : Environment (payloads c)) (out : Outside X) where
    abbrev pub status_ids : QueryOperatorStatus → ℕ × ℕ
    status_ids (Payloads.complete query_id op_in_id) = (query_id, op_in_id)
    status_ids (Payloads.error query_id op_in_id text) = (query_id, op_in_id)

    abbrev pub new_status : QueryOperatorStatus → Status
    new_status (Payloads.complete query_id op_in_id) = complete
    new_status (Payloads.error query_id op_in_id text) = error text

    unfoldable pub handle_operator_instance_status_change :
        Message (payloads c) → QueryOperatorStatus → Act c (Unit {0})
    unfolding reply update_operator_instance_status operator_instance_is_producer
        all_operator_instances_complete notify_exchanges
    handle_operator_instance_status_change msg cast_msg =
        let (query_id, op_in_id) = status_ids cast_msg in
        do
          reply env msg (of_response ok_response)
          update (λ s. update_operator_instance_status s query_id op_in_id (new_status cast_msg))
          producer ← ask (λ s. operator_instance_is_producer s query_id op_in_id)
          done ←
              (if producer
                then ask (λ s. all_operator_instances_complete s query_id op_in_id)
                else pure false)
          if done then notify_exchanges c env out query_id op_in_id else pure tt

    unfoldable pub handle_query_handler_request_list_operator_instances :
        Message (payloads c) → QueryHandlerRequests → Act c (Unit {0})
    unfolding reply get_operator_instances
    handle_query_handler_request_list_operator_instances msg
          (list_operator_instances_request query_id operator_id) =
        do
          op_instances ← ask (λ s. get_operator_instances s query_id operator_id)
          reply env msg (
              of_query_requests
                (list_operator_instances_response (map (λ item. item.id) op_instances)))
    handle_query_handler_request_list_operator_instances msg
          (list_operator_instances_response ids) =
        throw incorrect_message

    -- A query that waits runs when one of its instances is accepted.
    unfoldable pub start_query : ℕ → Act c (Unit {0})
    unfolding find_query update_query_status
    start_query query_id = do
      query ← ask (λ s. find_query s query_id)
      if is_queued query.status
          then update (λ s. update_query_status s query_id running)
          else pure tt

    unfoldable pub handle_operator_instance_assignment_responses :
        Message (payloads c) → OperatorInstanceAssignment X → Act c (Unit {0})
    unfolding start_query update_query_status update_operator_instance_status
    handle_operator_instance_assignment_responses msg
          (assign_accepted_response query_id op_in_id pipeline_id) =
        do
          start_query query_id
          update (λ s. update_operator_instance_status s query_id op_in_id running)
    handle_operator_instance_assignment_responses msg
          (assign_rejected_response query_id op_in_id pipeline_id text) =
        do
          update (λ s. update_query_status s query_id (error text))
          update (λ s. update_operator_instance_status s query_id op_in_id (error text))
    handle_operator_instance_assignment_responses msg
          (assign query_id op_in_id pipeline_id operator) =
        throw incorrect_message

    -- The messages of claims; the first is made in the k-th call.
    unfoldable pub assign_messages :
        Message (payloads c) → ℕ → List (Claim X) → List (Message (payloads c))
    unfolding Message.reply
    assign_messages msg k [] = []
    assign_messages msg k (item ∷ items) =
        Message.reply (env.msg_id k) (env.request_id k) msg (of_assignment (assign_claim item))
        ∷ assign_messages msg (suc k) items

    unfoldable pub handle_operator_instance_response :
        Message (payloads c) → OperatorInstanceAvailable → Act c (Unit {0})
    unfolding claim_operator_instances_up_to_compute_available send_all assign_messages
    handle_operator_instance_response msg (notification_response can_accept_up_to) = do
      claims ← λ ctx.
          claimed ctx (claim_operator_instances_up_to_compute_available ctx.state can_accept_up_to)
      λ ctx. send_all env (assign_messages msg ctx.calls claims) ctx
    handle_operator_instance_response msg notification = throw incorrect_message

    -- What follows when there is a plan.
    unfoldable pub create_query : Message (payloads c) → Text → PhysicalPlan X → Act c (Unit {0})
    unfolding new_query init add_query reply send
    create_query msg text physical_plan ctx =
        let query =
          init (out.instance_id ctx.calls)
            (new_query (out.query_id ctx.calls) text physical_plan) in
        (do
          modify (λ s. add_query s query)
          reply env msg (of_run_query_resp (created query.id))
          λ after. send env (new_message env (of_available notification) after) after)
          ctx

    unfoldable pub handle_run_query : Message (payloads c) → RunQuery → Act c (Unit {0})
    unfolding plan_query create_query reply
    handle_run_query msg run_query = elim (plan_query out run_query.query) [
      | plan physical_plan ↦ create_query msg run_query.query physical_plan
      | no_plan ↦ reply env msg (of_run_query_resp not_created)
      | planner_panics ↦ λ ctx. (panic, ctx)
      | planner_goes_on ↦ throw planner_out_of_fuel
    ]

    unfoldable pub handle_message : Message (payloads c) → Act c (Unit {0})
    unfolding handle_run_query handle_operator_instance_response
        handle_operator_instance_assignment_responses
        handle_query_handler_request_list_operator_instances handle_operator_instance_status_change
    handle_message msg = elim msg.msg [
      | of_run_query m ↦ handle_run_query msg m
      | of_available m ↦ handle_operator_instance_response msg m
      | of_assignment m ↦ handle_operator_instance_assignment_responses msg m
      | of_query_requests m ↦ handle_query_handler_request_list_operator_instances msg m
      | of_query_status m ↦ handle_operator_instance_status_change msg m
      | _ ↦ pure tt
    ]

    -- The loop of `async_main`, over the messages that arrive until it is cancelled: an error of the
    -- state is passed over, any other one ends it.
    unfoldable pub async_main : List (Message (payloads c)) → Act c (Unit {0})
    unfolding handle_message
    async_main [] ctx = (ok tt, ctx)
    async_main (msg ∷ msgs) ctx =
        let r = handle_message msg ctx in if goes_on r.0 then async_main msgs r.1 else r
