-- ===== src/Workers/QueryHandler/Progress.antt =====
-- Every message moves the status of a query along the transitions alone.
use chapterhouse_qe.Common.{
  ℕ, ◌≡◌, refl, subst, map, ◌==◌, if◌then◌else◌, Bool, true, false, some, List, [], ◌∷◌, find, Text,
  Outcome, ok, err, panic, Bool-cases, inl, inr,
}
use chapterhouse_qe.External.{External}
use chapterhouse_qe.Planner.Physical.Operators.{PhysicalPlan}
use chapterhouse_qe.Messages.Payloads.{
  Codec, Payload, payloads, ok_response, QueryOperatorStatus, RunQuery, created, not_created,
  OperatorInstanceAvailable, notification, notification_response, QueryHandlerRequests,
  list_operator_instances_request, list_operator_instances_response, OperatorInstanceAssignment,
  assign, assign_accepted_response, assign_rejected_response, of_response, of_query_status,
  of_run_query, of_run_query_resp, of_available, of_assignment, of_query_requests,
}
use chapterhouse_qe.Messages.Message.{Message}
use chapterhouse_qe.Workers.Actions.{
  Environment, Context, HandlerError, incorrect_message, planner_out_of_fuel, pure, throw, and_then,
  of_state, new_message, ◌>>◌, ask, update, modify, send, send_all, reply,
}
use chapterhouse_qe.Workers.Actions.Keeping.{
  pure-Keeps, throw-Keeps, update-Keeps, modify-Keeps, changed-Keeps, send-Keeps, send_all-Keeps,
}
use chapterhouse_qe.Workers.Queries.{
  QueryHandlerState, QueryHandlerStateError, Query, Status, queued, sending_to_worker, running,
  sent_shutdown, complete, error, new_query, init, add_query, find_query, get_operator_instances,
  update_operator_instance_status, update_query_status,
}
use chapterhouse_qe.Workers.Queries.Exchanges.{
  operator_instance_is_producer, all_operator_instances_complete,
}
use chapterhouse_qe.Workers.Queries.Progress.{
  ◌⟶◌, here, start, fail, ⟶*-trans, Progress, update_query_status-Progress, add_query-Progress,
  claim-Progress,
}
use chapterhouse_qe.Workers.Queries.Claims.{claim_operator_instances_up_to_compute_available}
use chapterhouse_qe.Workers.Planned.{
  Outside, plan, no_plan, planner_panics, planner_goes_on, Planned, plan_query,
}
use chapterhouse_qe.Workers.QueryHandler.{
  is_queued, status_ids, new_status, start_query, claimed, assign_messages, goes_on, create_query,
  handle_operator_instance_status_change, handle_query_handler_request_list_operator_instances,
  handle_operator_instance_assignment_responses, handle_operator_instance_response,
  handle_run_query, handle_message, async_main,
}
use chapterhouse_qe.Workers.Shutdowns.{Act, notify_exchanges}
use chapterhouse_qe.Workers.Shutdowns.Progress.{
  progress, Progresses, set_status-Progresses, bind-Progresses, ask-Progresses, done-Progresses,
  reply-Progresses, notify_exchanges-Progresses,
}

module _ {X : External} (c : Codec X) (env : Environment (payloads c)) (out : Outside X) where
  choose-Progresses :
      {A : Type 0} (b : Bool) (m n : Act c A)
      → Progresses c m
      → Progresses c n
      → Progresses c (if b then m else n)
  choose-Progresses true m n h k = h
  choose-Progresses false m n h k = k

  status_change-Progresses :
      (msg : Message (payloads c)) (change : QueryOperatorStatus)
      → Progresses c (handle_operator_instance_status_change c env out msg change)
  unfolding handle_operator_instance_status_change
  status_change-Progresses msg change =
      let (query_id, op_in_id) = status_ids c env out change in
      bind-Progresses c (reply env msg (of_response ok_response)) _
        (reply-Progresses c env out msg (of_response ok_response))
        (λ _.
          bind-Progresses c
            (update (λ s.
              update_operator_instance_status s query_id op_in_id (new_status c env out change)))
            _ (set_status-Progresses c query_id op_in_id (new_status c env out change))
            (λ _.
              bind-Progresses c (ask (λ s. operator_instance_is_producer s query_id op_in_id)) _
                (ask-Progresses c (λ s. operator_instance_is_producer s query_id op_in_id))
                (λ producer.
                  bind-Progresses c
                    (if producer
                      then ask (λ s. all_operator_instances_complete s query_id op_in_id)
                      else pure false)
                    _
                    (choose-Progresses producer
                      (ask (λ s. all_operator_instances_complete s query_id op_in_id)) (pure false)
                      (ask-Progresses c (λ s. all_operator_instances_complete s query_id op_in_id))
                      (pure-Keeps (payloads c) QueryHandlerStateError (progress X) false))
                    (λ done.
                      choose-Progresses done (notify_exchanges c env out query_id op_in_id)
                        (pure tt) (notify_exchanges-Progresses c env out query_id op_in_id)
                        (done-Progresses c)))))

  list-Progresses :
      (msg : Message (payloads c)) (request : QueryHandlerRequests)
      → Progresses c (handle_query_handler_request_list_operator_instances c env out msg request)
  unfolding handle_query_handler_request_list_operator_instances
  list-Progresses msg (list_operator_instances_request query_id operator_id) =
      bind-Progresses c (ask (λ s. get_operator_instances s query_id operator_id)) _
        (ask-Progresses c (λ s. get_operator_instances s query_id operator_id))
        (λ instances.
          reply-Progresses c env out msg (
            of_query_requests (list_operator_instances_response (map (λ item. item.id) instances))))
  list-Progresses msg (list_operator_instances_response ids) =
      throw-Keeps (payloads c) QueryHandlerStateError (progress X) (Unit {0}) incorrect_message

  is_queued_lem : (status : Status) → is_queued status ≡ true → some status ⟶ some running
  is_queued_lem queued h = start
  is_queued_lem sending_to_worker h = absurd (cc)
  is_queued_lem running h = absurd (cc)
  is_queued_lem (sent_shutdown time) h = absurd (cc)
  is_queued_lem complete h = absurd (cc)
  is_queued_lem (error text) h = absurd (cc)

  found_query :
      (s : QueryHandlerState X) (id : ℕ) (q q' : Query X)
      → find_query s id ≡ ok q
      → find (λ item. item.id == id) s.queries ≡ some q'
      → q ≡ q'
  unfolding find_query
  found_query s id q q' h e = let same : find_query s id ≡ ok q' = rw (e, find_query) refl in cc

  start_query-Progresses : (query_id : ℕ) → Progresses c (start_query c env out query_id)
  unfolding start_query
  start_query-Progresses query_id ctx = started (find_query ctx.state query_id) refl
    where
      started :
          (r : Outcome QueryHandlerStateError (Query X))
          → find_query ctx.state query_id ≡ r
          → Progress ctx.state
              (and_then
                (of_state r, ctx)
                (λ query.
                  if is_queued query.status
                  then update (λ s. update_query_status s query_id running)
                  else pure tt)).1.state
      started (err e) h = λ id. here
      started panic h = λ id. here
      started (ok q) h = elim (Bool-cases (is_queued q.status)) [
        | inr b ↦ rw (b) (λ id. here)
        | inl b ↦ rw (b) (
            changed-Keeps (payloads c) QueryHandlerStateError (progress X) ctx
              (update_query_status ctx.state query_id running)
              (λ t k.
                update_query_status-Progress ctx.state t query_id running
                  (λ q' e.
                    subst (λ x. some x.status ⟶ some running)
                      (found_query ctx.state query_id q q' h e) (is_queued_lem q.status b))
                  k))
      ]

  assignment-Progresses :
      (msg : Message (payloads c)) (response : OperatorInstanceAssignment X)
      → Progresses c (handle_operator_instance_assignment_responses c env out msg response)
  unfolding handle_operator_instance_assignment_responses
  assignment-Progresses msg (assign_accepted_response query_id op_in_id pipeline_id) =
      bind-Progresses c (start_query c env out query_id) _ (start_query-Progresses query_id)
        (λ _. set_status-Progresses c query_id op_in_id running)
  assignment-Progresses msg (assign_rejected_response query_id op_in_id pipeline_id text) =
      bind-Progresses c (update (λ s. update_query_status s query_id (error text))) _
        (update-Keeps (payloads c) QueryHandlerStateError (progress X)
          (λ s. update_query_status s query_id (error text))
          (λ s t k. update_query_status-Progress s t query_id (error text) (λ q e. fail) k))
        (λ _. set_status-Progresses c query_id op_in_id (error text))
  assignment-Progresses msg (assign query_id op_in_id pipeline_id operator) =
      throw-Keeps (payloads c) QueryHandlerStateError (progress X) (Unit {0}) incorrect_message

  available-Progresses :
      (msg : Message (payloads c)) (available : OperatorInstanceAvailable)
      → Progresses c (handle_operator_instance_response c env out msg available)
  unfolding handle_operator_instance_response
  available-Progresses msg (notification_response can_accept_up_to) =
      bind-Progresses c
        (λ ctx.
          claimed c ctx
            (claim_operator_instances_up_to_compute_available ctx.state can_accept_up_to))
        (λ claims ctx. send_all env (assign_messages c env out msg ctx.calls claims) ctx)
        (λ ctx. claim-Progress ctx.state can_accept_up_to)
        (λ claims ctx.
          send_all-Keeps (payloads c) QueryHandlerStateError (progress X) env
            (assign_messages c env out msg ctx.calls claims) ctx)
  available-Progresses msg notification =
      throw-Keeps (payloads c) QueryHandlerStateError (progress X) (Unit {0}) incorrect_message

  create_query-Progresses :
      (msg : Message (payloads c)) (text : Text) (physical_plan : PhysicalPlan X)
      → Progresses c (create_query c env out msg text physical_plan)
  unfolding create_query new_query init
  create_query-Progresses msg text physical_plan ctx =
      let query =
        init (out.instance_id ctx.calls) (new_query (out.query_id ctx.calls) text physical_plan) in
      let notify : Act c (Unit {0}) =
        λ after. send env (new_message env (of_available notification) after) after in
      let respond : Act c (Unit {0}) = reply env msg (of_run_query_resp (created query.id)) in
      bind-Progresses c (modify (λ s. add_query s query)) (λ _. respond >> notify)
        (modify-Keeps (payloads c) QueryHandlerStateError (progress X) (λ s. add_query s query)
          (λ s. add_query-Progress s query refl))
        (λ _.
          bind-Progresses c respond (λ _. notify)
            (reply-Progresses c env out msg (of_run_query_resp (created query.id)))
            (λ _ after.
              send-Keeps (payloads c) QueryHandlerStateError (progress X) env
                (new_message env (of_available notification) after) after))
        ctx

  run_query-Progresses :
      (msg : Message (payloads c)) (run_query : RunQuery)
      → Progresses c (handle_run_query c env out msg run_query)
  unfolding handle_run_query
  run_query-Progresses msg run_query = planned (plan_query out run_query.query)
    where
      planned :
          (p : Planned X)
          → Progresses c (elim p [
            | plan physical_plan ↦ create_query c env out msg run_query.query physical_plan
            | no_plan ↦ reply env msg (of_run_query_resp not_created)
            | planner_panics ↦ λ ctx. (panic, ctx)
            | planner_goes_on ↦ throw planner_out_of_fuel
          ])
      planned (plan physical_plan) = create_query-Progresses msg run_query.query physical_plan
      planned no_plan = reply-Progresses c env out msg (of_run_query_resp not_created)
      planned planner_panics = λ ctx id. here
      planned planner_goes_on = λ ctx id. here

  pub handle_message-Progresses :
      (msg : Message (payloads c)) → Progresses c (handle_message c env out msg)
  unfolding handle_message
  handle_message-Progresses msg = handled msg.msg
    where
      handled :
          (payload : Payload X)
          → Progresses c (elim payload [
            | of_run_query m ↦ handle_run_query c env out msg m
            | of_available m ↦ handle_operator_instance_response c env out msg m
            | of_assignment m ↦ handle_operator_instance_assignment_responses c env out msg m
            | of_query_requests m ↦
                handle_query_handler_request_list_operator_instances c env out msg m
            | of_query_status m ↦ handle_operator_instance_status_change c env out msg m
            | _ ↦ pure tt
          ])
      handled (of_run_query m) = run_query-Progresses msg m
      handled (of_available m) = available-Progresses msg m
      handled (of_assignment m) = assignment-Progresses msg m
      handled (of_query_requests m) = list-Progresses msg m
      handled (of_query_status m) = status_change-Progresses msg m
      handled _ = done-Progresses c

  next-Progresses :
      (s : QueryHandlerState X)
      (r : Outcome (HandlerError QueryHandlerStateError) (Unit {0})
        × Context (payloads c) (QueryHandlerState X))
      (rest : Act c (Unit {0}))
      → Progress s r.1.state
      → Progresses c rest
      → Progress s (if goes_on c r.0 then rest r.1 else r).1.state
  next-Progresses s (result, after) rest h k = elim (Bool-cases (goes_on c result)) [
    | inl e ↦ rw (e) (λ id. ⟶*-trans (h id) (k after id))
    | inr e ↦ rw (e) h
  ]

  pub async_main-Progresses :
      (msgs : List (Message (payloads c))) → Progresses c (async_main c env out msgs)
  unfolding async_main
  async_main-Progresses [] ctx = λ id. here
  async_main-Progresses (msg ∷ msgs) ctx =
      next-Progresses ctx.state (handle_message c env out msg ctx) (async_main c env out msgs)
        (handle_message-Progresses msg ctx) (async_main-Progresses msgs)
