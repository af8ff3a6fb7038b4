-- ===== src/Examples/Servers.antt =====
-- src/handlers: the handlers of a worker over small states, and the ways of their messages.
use chapterhouse_qe.Common.{
  ℕ, any, ◌&&◌, ◌==◌, false, zero, suc, ◌+◌, ◌≡◌, ◌≢◌, refl, true, Option, none, some, List, [],
  ◌∷◌, codes, Outcome, ok, err, panic, arith,
}
use chapterhouse_qe.Messages.Payloads.{
  Codec, Payload, payloads, msg_name, ok_response, immediate, notification, notification_response,
  assign, of_response, of_shutdown, of_available, of_assignment,
}
use chapterhouse_qe.Messages.Message.{Message, set_route_to_operation_id}
use chapterhouse_qe.Messages.Pipe.{Pipe, PipeError, timed_out_waiting_for_message_to_send}
use chapterhouse_qe.Messages.Pipe
use chapterhouse_qe.Messages.Router.{MessageRouterState, route_to_internal_subscriber}
use chapterhouse_qe.Workers.Actions.{Environment, Context, reply, send, send_request, retry_request}
use chapterhouse_qe.Workers.Requests.{
  check_response, ask_once, ask_with_retry, routed_to, shutdown_immediate_request,
}
use chapterhouse_qe.Messages.Names.{as_u16}
use chapterhouse_qe.Workers.Shutdowns.{shut_down_instance}
use chapterhouse_qe.Workers.Shutdowns.Relaunch.{shut_down_instance-claimable}
use chapterhouse_qe.Workers.Queries.Claims.{claimable}
use chapterhouse_qe.Workers.OperatorHandler
use chapterhouse_qe.Workers.OperatorHandler.Rejections.{rejection, unimplemented, filter_fails}
use chapterhouse_qe.Workers.QueryHandler
use chapterhouse_qe.Workers.Requests.Tries.{Sends, ask_with_retry-Sends, ask_with_retry-answered}
use chapterhouse_qe.Workers.Instances.{OperatorHandlerState}
use chapterhouse_qe.Workers.Builder.{OperatorTaskRegistry}
use chapterhouse_qe.Workers.Planned.{Outside}
use chapterhouse_qe.Workers.Queries.{
  QueryHandlerState, OperatorInstance, queued, error, get_operator_instance, find_query,
  find_operator_instance, update_operator_instance_status,
}
use chapterhouse_qe.Workers.Queries
use chapterhouse_qe.Workers.Queries.Progress.{◌⟶*◌, status_of}
use chapterhouse_qe.Workers.QueryHandler.{async_main}
use chapterhouse_qe.Workers.QueryHandler.Statuses.{IsOpen, async_main-Progress, async_main-IsOpen}
use chapterhouse_qe.Workers.Subscribers.{
  query_handler_subscriber, operator_handler_subscriber, exchange_subscriber, producer_subscriber,
}
use chapterhouse_qe.Workers.Subscribers.Handlers.{
  of_query_handler, of_operator_handler, of_other, route_to_internal_subscriber-handlers,
}
use chapterhouse_qe.Examples.Demo.{demo}
use chapterhouse_qe.Examples.Claims.{state, reader, plan, compute, instance_of}

abbrev pub codec : Codec demo
codec = record { Failure = ℕ; to_bytes = λ p. ok (1 ∷ 2 ∷ 3 ∷ 4 ∷ []); build_msg = λ id. none }

abbrev pub some_message : Payload demo → Message (payloads codec)
some_message p = record {
  msg_name_id = 0;
  msg_id = 300;
  request_id = 301;
  msg = p;
  sent_from_worker_id = none;
  sent_from_query_id = none;
  sent_from_operation_id = none;
  sent_from_connection_id = none;
  route_to_worker_id = none;
  route_to_operation_id = none;
  route_to_connection_id = none;
  inbound_stream_id = none;
  outbound_stream_id = none;
  created_on_this_worker = true;
}

abbrev pub pipe_of : ℕ → Pipe (payloads codec)
pipe_of id = record {
  sent_from_query_id = none;
  sent_from_operation_id = some id;
  msg_queue = [];
  max_msg_queue_length = 100;
}

-- Every message is taken, and every request answered with success.
abbrev agreeing : Environment (payloads codec)
agreeing = record {
  pipe = pipe_of 50;
  accepts = λ k. true;
  receives = λ k. ok (some (some_message (of_response ok_response)));
  msg_id = λ k. 400 + k;
  request_id = λ k. 500 + k;
}

abbrev outside : Outside demo
outside = record {
  parse_sql = λ text. none;
  fuel = 20;
  query_id = λ k. 600 + k;
  instance_id = λ k i. 700 + i;
  now = λ k. k;
}

abbrev holding : {S : Type 0} → S → Context (payloads codec) S
holding s = record { state = s; sent = []; calls = 0 }

abbrev offers : List (Message (payloads codec))
offers =
    some_message (
      of_available (
        notification_response
          (record { instances = 5; memory_in_mib = 5000; cpu_in_thousandths = 5000 })))
    ∷ []

async_main-Progress_example :
    status_of state 1
    ⟶* status_of (async_main codec agreeing outside offers (holding state)).1.state 1
async_main-Progress_example = async_main-Progress codec agreeing outside offers (holding state) 1

async_main-IsOpen_example :
    IsOpen (status_of (async_main codec agreeing outside offers (holding Queries.new)).1.state 1)
async_main-IsOpen_example =
    async_main-IsOpen codec agreeing outside offers (holding Queries.new) 1 refl

ask_with_retry-Sends_example :
    Sends codec {S = ℕ} ℕ agreeing
      (routed_to codec 11)
      (of_shutdown immediate)
      4
      (holding 0)
      (ask_with_retry codec {S = ℕ} {E = ℕ} agreeing
        (routed_to codec 11)
        (of_shutdown immediate)
        (holding 0)).1
unfolding set_route_to_operation_id
ask_with_retry-Sends_example =
    ask_with_retry-Sends codec ℕ agreeing (routed_to codec 11) (of_shutdown immediate) (λ m. refl)
      (holding 0)

-- The first try times out, the second one is answered.
abbrev slow : ℕ → Outcome PipeError (Option (Message (payloads codec)))
slow zero = err Pipe.channel_closed
slow (suc zero) = err Pipe.channel_closed
slow (suc (suc k)) = ok (some (some_message (of_response ok_response)))

slow-calm : (k : ℕ) → slow k ≢ panic
slow-calm zero = λ e. cc
slow-calm (suc zero) = λ e. cc
slow-calm (suc (suc k)) = λ e. cc

abbrev slowly : Environment (payloads codec)
slowly = record agreeing { receives = slow }

ask_with_retry-answered_example :
    (ask_with_retry codec {S = ℕ} {E = ℕ} slowly
      (routed_to codec 11)
      (of_shutdown immediate)
      (holding 0)).0
    ≡ ok tt
ask_with_retry-answered_example =
    ask_with_retry-answered codec ℕ slowly (routed_to codec 11) (of_shutdown immediate) 1
      (holding 0) (λ k. refl) slow-calm (ground arith)
      (some_message (of_response ok_response), refl, refl)

shut_down_instance-claimable_example :
    (after : OperatorInstance) × (get_operator_instance
        (shut_down_instance codec agreeing outside 1
          (instance_of 11 (codes "x"))
          (holding state)).1.state
        1
        11
      ≡ ok after)
    × (claimable plan (compute 5 5000 5000) after
        ≡ claimable plan (compute 5 5000 5000) (instance_of 11 (codes "x")))
unfolding get_operator_instance find_query find_operator_instance shut_down_instance
    shutdown_immediate_request ask_with_retry retry_request ask_once send_request send
    check_response update_operator_instance_status msg_name as_u16
shut_down_instance-claimable_example =
    shut_down_instance-claimable codec agreeing outside 1 (instance_of 11 (codes "x"))
      (holding state) plan (compute 5 5000 5000) refl refl

abbrev registry : OperatorTaskRegistry demo
registry = record { table_func_tasks = []; materialize_files_task = none }

abbrev worker : OperatorHandlerState demo
worker = record { operator_instances = []; allowed_compute = compute 5 5000 5000 }

filter_fails_example :
    (OperatorHandler.handle_message codec agreeing registry
        (some_message (of_assignment (assign 1 10 (codes "p") reader)))
        (holding worker)
      ≡ reply agreeing
          (some_message (of_assignment (assign 1 10 (codes "p") reader)))
          (rejection 1 10 (codes "p"))
          (holding worker))
    × (worker
        ≡ (OperatorHandler.handle_message codec agreeing registry
            (some_message (of_assignment (assign 1 10 (codes "p") reader)))
            (holding worker)).1.state)
    × (status_of
          (QueryHandler.handle_message codec agreeing outside
            (some_message (rejection 1 10 (codes "p")))
            (holding state)).1.state
          1
        ≡ some (error unimplemented))
filter_fails_example =
    filter_fails codec registry outside agreeing agreeing
      (some_message (of_assignment (assign 1 10 (codes "p") reader)))
      (some_message (rejection 1 10 (codes "p"))) 1 10 (codes "p") reader 3 (codes "x") []
      (holding worker) (holding state) queued refl refl refl refl

abbrev subscribed : MessageRouterState (payloads codec)
subscribed = record {
  external_subscribers = [];
  internal_subscribers =
      query_handler_subscriber codec 50
      ∷ operator_handler_subscriber codec 51
      ∷ exchange_subscriber codec 52 1
      ∷ producer_subscriber codec 53 1
      ∷ [];
}

route_to_internal_subscriber-handlers_example :
    let to = route_to_internal_subscriber 7 subscribed (some_message (of_available notification)) in
    (any (λ id. id == 50) to && any (λ id. id == 51) to) ≡ false
unfolding exchange_subscriber producer_subscriber
route_to_internal_subscriber-handlers_example =
    route_to_internal_subscriber-handlers codec 7 50 51 (some_message (of_available notification))
      subscribed (λ e. ground (arith, e))
      (
        of_query_handler refl,
        (
          of_operator_handler refl,
          (
            of_other (λ e. ground (arith, e)) (λ e. ground (arith, e)),
            (of_other (λ e. ground (arith, e)) (λ e. ground (arith, e)), tt),
          ),
        ),
      )
