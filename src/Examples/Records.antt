-- ===== src/Examples/Records.antt =====
-- src/handlers/operator_handler/operators: an exchange that gets a record twice, an operator that finds an
-- exchange, and src/handlers/message_handler/connection.rs: a buffer with one message and a part of one.
use chapterhouse_qe.Common.{
  ◌+◌, ◌≡◌, ◌≢◌, refl, true, false, none, some, [], ◌∷◌, ◌++◌, ◌==◌, if◌then◌else◌, length, codes,
  ok, panic, arith,
}
use chapterhouse_qe.Planner.Physical.Operators
use chapterhouse_qe.Common.Map
use chapterhouse_qe.Exchange.Pool
use chapterhouse_qe.Exchange.Pool.{add_record}
use chapterhouse_qe.Exchange.Operator.{ExchangeOperator, running_state, next_record, route_msg}
use chapterhouse_qe.Exchange.Operator
use chapterhouse_qe.Exchange.Operator.Draining.{serve}
use chapterhouse_qe.Exchange.Operator.Resending.{twice, resent-panics}
use chapterhouse_qe.Messages.Payloads.{
  payloads, msg_name, pong, get_next_record_request, of_exchange_requests,
  list_operator_instances_response, of_ping, of_query_requests,
}
use chapterhouse_qe.Messages.Message.{Message, set_sent_from_worker_id}
use chapterhouse_qe.Messages.Names.{as_u16}
use chapterhouse_qe.Messages.Connection.{out_of_fuel, drain}
use chapterhouse_qe.Messages.Connection.Halting.{drain-halts}
use chapterhouse_qe.Workers.Actions.{Context, Environment, retry_request, send, send_request}
use chapterhouse_qe.Workers.Identification.{
  single_instance, read_instance, read_worker, get_exchange_operator_instance_id,
  get_exchange_operator_instance_id_with_retry, get_exchange_worker_id, identify_exchange, request,
}
use chapterhouse_qe.Workers.Identification.Answers.{Lists, ComesFrom, Answered, request-answered}
use chapterhouse_qe.Examples.Demo.{demo}
use chapterhouse_qe.Examples.Wires.{big_endian}
use chapterhouse_qe.Examples.Servers.{codec, some_message, pipe_of}
use chapterhouse_qe.Examples.Roads.{four_bytes, inbound, wire}

abbrev one_consumer : ExchangeOperator demo
one_consumer = record {
  record_pool = Pool.new (codes "b" ∷ []) 10;
  inbound_producer_operator_states = running_state (codes "p") ∷ [];
  received_all_data_from_producers = false;
}

resent-panics_example :
    (route_msg
      (serve one_consumer (twice (codes "b") 3 7 0 [] (λ k. k)))
      (next_record (codes "b") (some 3))
      4).1
    ≡ panic
unfolding Operator.new running_state
resent-panics_example =
    resent-panics (Operators.table none [] 0) (codes "b") (codes "p" ∷ []) one_consumer 3 7 0 []
      (λ k. k) refl

abbrev listed : Message (payloads codec)
listed = some_message (of_query_requests (list_operator_instances_response (77 ∷ [])))

abbrev ponged : Message (payloads codec)
ponged = set_sent_from_worker_id (some_message (of_ping pong)) 5

-- The first request finds no reply.
abbrev helpful : Environment (payloads codec)
helpful = record {
  pipe = pipe_of 50;
  accepts = λ k. true;
  receives = λ k. if k == 1 then ok none else if k == 3 then ok (some listed) else ok (some ponged);
  msg_id = λ k. 400 + k;
  request_id = λ k. 500 + k;
}

request-answered_example :
    Answered codec helpful (Lists codec 77) × Answered codec helpful (ComesFrom codec 5)
unfolding request identify_exchange get_exchange_operator_instance_id_with_retry
    get_exchange_operator_instance_id get_exchange_worker_id retry_request send_request send
    read_instance read_worker single_instance set_sent_from_worker_id as_u16 msg_name
request-answered_example =
    request-answered codec helpful 1 (codes "x") (record { state = tt; sent = []; calls = 0 })
      (record { exchange_operator_instance_id = 77; exchange_worker_id = 5 }) refl

drain-halts_example :
    (drain {P = four_bytes} big_endian inbound
      (length (wire ++ (0 ∷ [])) + 1)
      (wire ++ (0 ∷ []))).halt
    ≢ out_of_fuel
drain-halts_example =
    drain-halts four_bytes big_endian inbound (length (wire ++ (0 ∷ [])) + 1) (wire ++ (0 ∷ []))
      (ground arith)

abbrev with_record : Context (payloads codec) (ExchangeOperator demo)
with_record = record {
  state = record one_consumer { record_pool = add_record (Pool.new (codes "b" ∷ []) 10) 7 0 [] };
  sent = [];
  calls = 0;
}

abbrev asking : Message (payloads codec)
asking = record (some_message (of_exchange_requests (get_next_record_request (codes "b")))) {
  sent_from_operation_id = some 3;
}
