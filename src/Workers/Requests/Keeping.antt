-- ===== src/Workers/Requests/Keeping.antt =====
-- Requests do not touch the state of the handler that sends them.
use chapterhouse_qe.Common.{ℕ, Text}
use chapterhouse_qe.External.{External}
use chapterhouse_qe.Messages.Names.{common_generic_response}
use chapterhouse_qe.Messages.Payloads.{
  Codec, Payload, payloads, GenericResponse, ok_response, error_response, immediate, of_response,
  of_shutdown, of_query_status, of_exchange_status,
}
use chapterhouse_qe.Messages.Payloads
use chapterhouse_qe.Messages.Message.{Message}
use chapterhouse_qe.Workers.Actions.{Environment, send_request, new_message}
use chapterhouse_qe.Workers.Actions.Keeping.{
  Preorder, Keeps, bind-Keeps, retry_request-Keeps, send_request-Keeps,
}
use chapterhouse_qe.Workers.Requests.{
  check_response, ask_once, ask_with_retry, routed_to, shutdown_immediate_request,
  exchange_completed_request, query_completed_request, query_errored_request,
}

module _ {X : External} (c : Codec X) {S : Type 0} (E : Type 0) (R : Preorder S) where
  check_response-Keeps : (payload : Payload X) → Keeps (payloads c) E R (check_response c payload)
  unfolding check_response
  check_response-Keeps (of_response ok_response) ctx = R.same ctx.state
  check_response-Keeps (of_response (error_response text)) ctx = R.same ctx.state
  check_response-Keeps _ ctx = R.same ctx.state

  module _ (env : Environment (payloads c)) where
    pub ask_with_retry-Keeps :
        (routed : Message (payloads c) → Message (payloads c)) (payload : Payload X)
        → Keeps (payloads c) E R (ask_with_retry c env routed payload)
    unfolding ask_with_retry ask_once
    ask_with_retry-Keeps routed payload =
        retry_request-Keeps (payloads c) E R 3 (ask_once c env routed payload) (λ ctx.
          bind-Keeps (payloads c) E R
            (send_request env common_generic_response (routed (new_message env payload ctx)))
            (λ resp_msg. check_response c resp_msg.msg)
            (send_request-Keeps (payloads c) E R env common_generic_response
              (routed (new_message env payload ctx)))
            (λ resp_msg. check_response-Keeps resp_msg.msg) ctx)

    pub shutdown_immediate_request-Keeps :
        (id : ℕ) → Keeps (payloads c) E R (shutdown_immediate_request c env id)
    unfolding shutdown_immediate_request
    shutdown_immediate_request-Keeps id =
        ask_with_retry-Keeps (routed_to c id) (of_shutdown immediate)

    pub exchange_completed_request-Keeps :
        (id : ℕ) (op_id : Text) → Keeps (payloads c) E R (exchange_completed_request c env id op_id)
    unfolding exchange_completed_request
    exchange_completed_request-Keeps id op_id =
        ask_with_retry-Keeps (routed_to c id) (of_exchange_status (Payloads.complete op_id))

    pub query_completed_request-Keeps :
        (query_id id : ℕ) → Keeps (payloads c) E R (query_completed_request c env query_id id)
    unfolding query_completed_request
    query_completed_request-Keeps query_id id =
        ask_with_retry-Keeps (λ msg. msg) (of_query_status (Payloads.complete query_id id))

    pub query_errored_request-Keeps :
        (query_id id : ℕ) (text : Text)
        → Keeps (payloads c) E R (query_errored_request c env query_id id text)
    unfolding query_errored_request
    query_errored_request-Keeps query_id id text =
        ask_with_retry-Keeps (λ msg. msg) (of_query_status (Payloads.error query_id id text))
