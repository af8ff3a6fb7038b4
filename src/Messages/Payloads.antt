-- ===== src/Messages/Payloads.antt =====
-- src/handlers/message_handler/messages: common.rs, operator.rs, query.rs and exchange.rs, what messages
-- carry. An id is the number of a `u128`. The JSON and Arrow bytes of a payload are arguments.
use chapterhouse_qe.Common.{ℕ, Option, List, Text, Outcome}
use chapterhouse_qe.External.{External}
use chapterhouse_qe.Planner.Physical.Operators.{Operator}
use chapterhouse_qe.Workers.Compute.{TotalOperatorCompute}
use chapterhouse_qe.Messages.Names.{MessageName}
use chapterhouse_qe.Messages.Names
use chapterhouse_qe.Messages.Message.{Payloads}

pub data Identify : Type 0 where
  worker : ℕ → Identify
  connection : ℕ → Identify

pub data Ping : Type 0 where
  ping : Ping
  pong : Ping

pub data GenericResponse : Type 0 where
  ok_response : GenericResponse
  error_response : Text → GenericResponse

pub data Shutdown : Type 0 where
  immediate : Shutdown

-- messages/operator.rs
pub data OperatorStatus : Type 0 where
  complete : OperatorStatus
  error : Text → OperatorStatus

-- messages/query.rs, `complete query_id operator_instance_id` and the same with an error.
pub data QueryOperatorStatus : Type 0 where
  complete : ℕ → ℕ → QueryOperatorStatus
  error : ℕ → ℕ → Text → QueryOperatorStatus

pub record RunQuery : Type 0 where
  pub query : Text

pub data RunQueryResp : Type 0 where
  created : ℕ → RunQueryResp
  not_created : RunQueryResp

pub data OperatorInstanceAvailable : Type 0 where
  notification : OperatorInstanceAvailable
  notification_response : TotalOperatorCompute → OperatorInstanceAvailable

pub data QueryHandlerRequests : Type 0 where
  list_operator_instances_request : ℕ → Text → QueryHandlerRequests
  list_operator_instances_response : List ℕ → QueryHandlerRequests

-- messages/exchange.rs
pub data OperatorStatusChange : Type 0 where
  complete : Text → OperatorStatusChange

module _ (X : External) where
  -- The query id, the instance id and the pipeline id, and what else there is.
  pub data OperatorInstanceAssignment : Type 0 where
    assign : ℕ → ℕ → Text → Operator X → OperatorInstanceAssignment
    assign_accepted_response : ℕ → ℕ → Text → OperatorInstanceAssignment
    assign_rejected_response : ℕ → ℕ → Text → Text → OperatorInstanceAssignment

  -- A record id comes before its record, which comes before its table aliases.
  pub data ExchangeRequests : Type 0 where
    get_next_record_request : Text → ExchangeRequests
    get_next_record_response_record : ℕ → X.RecordBatch → List (List Text) → ExchangeRequests
    get_next_record_response_none_left : ExchangeRequests
    get_next_record_response_none_available : ExchangeRequests
    send_record_request : ℕ → X.RecordBatch → List (List Text) → ExchangeRequests
    send_record_response : ℕ → ExchangeRequests
    operator_completed_record_processing_request : Text → ℕ → ExchangeRequests
    operator_completed_record_processing_response : ExchangeRequests

  -- The types that implement `SendableMessage`.
  pub data Payload : Type 0 where
    of_identify : Identify → Payload
    of_ping : Ping → Payload
    of_response : GenericResponse → Payload
    of_shutdown : Shutdown → Payload
    of_operator_status : OperatorStatus → Payload
    of_query_status : QueryOperatorStatus → Payload
    of_run_query : RunQuery → Payload
    of_run_query_resp : RunQueryResp → Payload
    of_available : OperatorInstanceAvailable → Payload
    of_assignment : OperatorInstanceAssignment → Payload
    of_query_requests : QueryHandlerRequests → Payload
    of_exchange_status : OperatorStatusChange → Payload
    of_exchange_requests : ExchangeRequests → Payload

module _ {X : External} where
  unfoldable pub msg_name : Payload X → MessageName
  msg_name (of_identify m) = Names.identify
  msg_name (of_ping m) = Names.ping
  msg_name (of_response m) = Names.common_generic_response
  msg_name (of_shutdown m) = Names.operator_shutdown
  msg_name (of_operator_status m) = Names.operator_operator_instance_status_change
  msg_name (of_query_status m) = Names.query_operator_instance_status_change
  msg_name (of_run_query m) = Names.run_query
  msg_name (of_run_query_resp m) = Names.run_query_resp
  msg_name (of_available m) = Names.operator_instance_available
  msg_name (of_assignment m) = Names.operator_instance_assignment
  msg_name (of_query_requests m) = Names.query_handler_requests
  msg_name (of_exchange_status m) = Names.exchange_operator_status_change
  msg_name (of_exchange_requests m) = Names.exchange_requests

  unfoldable pub get_query_id : OperatorInstanceAssignment X → ℕ
  get_query_id (assign query_id op_in_id pipeline_id operator) = query_id
  get_query_id (assign_accepted_response query_id op_in_id pipeline_id) = query_id
  get_query_id (assign_rejected_response query_id op_in_id pipeline_id text) = query_id

  unfoldable pub get_op_instance_id : OperatorInstanceAssignment X → ℕ
  get_op_instance_id (assign query_id op_in_id pipeline_id operator) = op_in_id
  get_op_instance_id (assign_accepted_response query_id op_in_id pipeline_id) = op_in_id
  get_op_instance_id (assign_rejected_response query_id op_in_id pipeline_id text) = op_in_id

  unfoldable pub get_pipeline_id : OperatorInstanceAssignment X → Text
  get_pipeline_id (assign query_id op_in_id pipeline_id operator) = pipeline_id
  get_pipeline_id (assign_accepted_response query_id op_in_id pipeline_id) = pipeline_id
  get_pipeline_id (assign_rejected_response query_id op_in_id pipeline_id text) = pipeline_id

-- The bytes of a payload, and how they are read, which serde_json and arrow give.
pub record Codec (X : External) : Type 1 where
  pub Failure : Type 0
  pub to_bytes : Payload X → Outcome Failure (List ℕ)
  pub build_msg : ℕ → Option (List ℕ → Outcome Failure (Payload X))

abbrev pub payloads : {X : External} → Codec X → Payloads
payloads {X} c = record {
  Sendable = Payload X;
  Failure = c.Failure;
  msg_name = msg_name;
  to_bytes = c.to_bytes;
  build_msg = c.build_msg;
}
