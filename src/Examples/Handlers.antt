-- ===== src/Examples/Handlers.antt =====
-- src/handlers/operator_handler/operators/exchange_operator.rs and
-- src/handlers/message_handler/comms.rs: an exchange that runs dry, and a pipe that waits for a
-- reply; and the router of src/handlers/message_router_handler.
use chapterhouse_qe.Common.{
  ℕ, ◌≡◌, refl, false, none, some, List, [], ◌∷◌, ◌++◌, Text, codes, ok, arith,
}
use chapterhouse_qe.Common.Map
use chapterhouse_qe.Planner.Physical.Operators.{OperatorTask, exchange}
use chapterhouse_qe.Planner.Physical.Operators
use chapterhouse_qe.Exchange.Pool
use chapterhouse_qe.Exchange.Operator.{
  ExchangeOperator, running_state, Request, send_record, next_record, completed_record,
  operator_complete, none_left,
}
use chapterhouse_qe.Exchange.Operator
use chapterhouse_qe.Messages.Message.{Message}
use chapterhouse_qe.Messages.Pipe.{Pipe, timed_out, take_request, recv_request}
use chapterhouse_qe.Messages.Pipe.Replies.{recv_request-found}
use chapterhouse_qe.Messages.Router.{
  MessageRouterState, outbound_worker, worker_stream, add_external_subscriber,
  get_worker_outbound_stream,
}
use chapterhouse_qe.Messages.Router.Streams.{
  or_new, add_external_subscriber-get_worker_outbound_stream,
}
use chapterhouse_qe.Examples.Demo.{demo}
use chapterhouse_qe.Examples.Wires.{one_byte, pinged}

abbrev consumers : List Text
consumers = codes "b" ∷ codes "a" ∷ []

abbrev begun : ExchangeOperator demo
begun = record {
  record_pool = Pool.new consumers 10;
  inbound_producer_operator_states = running_state (codes "p") ∷ [];
  received_all_data_from_producers = false;
}

abbrev requests : List (Request demo × ℕ)
requests =
    (send_record 7 4 ((codes "t" ∷ []) ∷ []), 1)
    ∷ (next_record (codes "a") (some 3), 2)
    ∷ (completed_record (codes "a") 7, 3)
    ∷ (operator_complete (codes "p"), 4)
    ∷ []

abbrev other : Message one_byte
other = record pinged { request_id = 5 }

abbrev pipe : Pipe one_byte
pipe = record {
  sent_from_query_id = none;
  sent_from_operation_id = none;
  msg_queue = other ∷ [];
  max_msg_queue_length = 100;
}

recv_request-found_example :
    ((recv_request pipe 301 (other ∷ pinged ∷ other ∷ []) timed_out).result ≡ ok (some pinged))
    × ((recv_request pipe 301 (other ∷ pinged ∷ other ∷ []) timed_out).msg_queue
          ++ (recv_request pipe 301 (other ∷ pinged ∷ other ∷ []) timed_out).rest
        ≡ other ∷ other ∷ other ∷ [])
unfolding take_request
recv_request-found_example =
    recv_request-found pipe 301 (other ∷ pinged ∷ other ∷ []) timed_out pinged
      (other ∷ other ∷ other ∷ []) refl (ground arith)

abbrev router : MessageRouterState one_byte
router = record { external_subscribers = outbound_worker 4 100 ∷ []; internal_subscribers = [] }

add_external_subscriber-get_worker_outbound_stream_example :
    get_worker_outbound_stream (add_external_subscriber router (outbound_worker 4 200)) 4
    ≡ or_new (get_worker_outbound_stream router 4) 200
unfolding get_worker_outbound_stream worker_stream
add_external_subscriber-get_worker_outbound_stream_example =
    add_external_subscriber-get_worker_outbound_stream router 4 200 (λ e. ground (arith, e))
