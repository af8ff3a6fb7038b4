-- ===== src/Messages/Names.antt =====
-- src/handlers/message_handler/messages/message.rs, `MessageName`.
use chapterhouse_qe.Common.{ℕ}

pub data MessageName : Type 0 where
  ping : MessageName
  identify : MessageName
  run_query : MessageName
  run_query_resp : MessageName
  operator_instance_available : MessageName
  operator_instance_assignment : MessageName
  query_handler_requests : MessageName
  exchange_requests : MessageName
  operator_operator_instance_status_change : MessageName
  common_generic_response : MessageName
  query_operator_instance_status_change : MessageName
  exchange_operator_status_change : MessageName
  operator_shutdown : MessageName

unfoldable pub as_u16 : MessageName → ℕ
as_u16 ping = 0
as_u16 identify = 1
as_u16 run_query = 2
as_u16 run_query_resp = 3
as_u16 operator_instance_available = 4
as_u16 operator_instance_assignment = 5
as_u16 query_handler_requests = 6
as_u16 exchange_requests = 7
as_u16 operator_operator_instance_status_change = 8
as_u16 common_generic_response = 9
as_u16 query_operator_instance_status_change = 10
as_u16 exchange_operator_status_change = 11
as_u16 operator_shutdown = 12
