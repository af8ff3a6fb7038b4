-- ===== src/Workers/Identification.antt =====
-- src/handlers/operator_handler/operators/requests/identify_exchange_requests.rs,
-- `IdentifyExchangeRequest`: how an operator finds the instance of an exchange and its worker. The pauses
-- between the tries are left out.
pub mod Answers
use chapterhouse_qe.Common.{
  ℕ, zero, suc, Option, none, some, List, [], ◌∷◌, Text, Outcome, ok, err, panic,
}
use chapterhouse_qe.External.{External}
use chapterhouse_qe.Planner.Physical.Operators.{producer, exchange}
use chapterhouse_qe.Messages.Names
use chapterhouse_qe.Messages.Payloads.{
  Codec, Payload, payloads, ping, pong, list_operator_instances_request,
  list_operator_instances_response, of_ping, of_query_requests,
}
use chapterhouse_qe.Messages.Message.{Message, set_route_to_operation_id}
use chapterhouse_qe.Workers.Actions.{
  Environment, Context, HandlerError, state_error, Action, pure, throw, ◌>>=◌, new_message,
  send_request, retry_request,
}
use chapterhouse_qe.Workers.Instances.{OperatorInstanceConfig}

pub data IdentifyExchangeRequestError : Type 0 where
  operator_type_not_implemented : IdentifyExchangeRequestError
  received_the_wrong_message_type : IdentifyExchangeRequestError
  received_multiple_operator_instances_for_the_exchange : IdentifyExchangeRequestError
  exchange_operator_instance_id_not_set : IdentifyExchangeRequestError
  received_message_without_a_worker_id : IdentifyExchangeRequestError
  missing_part_of_response : Option ℕ → Option ℕ → IdentifyExchangeRequestError
  operator_instance_id_could_not_be_determined : IdentifyExchangeRequestError

pub record IdentifyExchangeResponse : Type 0 where
  pub exchange_operator_instance_id : ℕ
  pub exchange_worker_id : ℕ

-- The fields that the request fills in.
pub record IdentifyExchangeRequest : Type 0 where
  pub exchange_operator_instance_id : Option ℕ
  pub exchange_worker_id : Option ℕ

abbrev pub Found : Type 0 → Type 0
Found A = Outcome (HandlerError IdentifyExchangeRequestError) A

-- The one instance of a list.
unfoldable pub single_instance : List ℕ → Found (Option ℕ)
single_instance [] = ok none
single_instance (id ∷ []) = ok (some id)
single_instance (id ∷ next ∷ ids) =
    err (state_error received_multiple_operator_instances_for_the_exchange)

abbrev pub or_no_worker : Option ℕ → Found ℕ
or_no_worker none = err (state_error received_message_without_a_worker_id)
or_no_worker (some worker_id) = ok worker_id

abbrev pub response_of : Option ℕ → Option ℕ → Found IdentifyExchangeResponse
response_of (some id) (some worker_id) =
    ok (record { exchange_operator_instance_id = id; exchange_worker_id = worker_id })
response_of id worker_id = err (state_error (missing_part_of_response id worker_id))

module _ {X : External} (c : Codec X) where
  unfoldable pub read_instance : Payload X → Found (Option ℕ)
  unfolding single_instance
  read_instance (of_query_requests (list_operator_instances_response ids)) = single_instance ids
  read_instance _ = err (state_error received_the_wrong_message_type)

  unfoldable pub read_worker : Message (payloads c) → Payload X → Found ℕ
  read_worker resp_msg (of_ping pong) = or_no_worker resp_msg.sent_from_worker_id
  read_worker resp_msg _ = err (state_error received_the_wrong_message_type)

  abbrev pub Result : Type 0 → Type 0 → Type 0
  Result S A = Found A × Context (payloads c) S

  module _ {S : Type 0} where
    -- A try but the last one, and the tries behind it.
    abbrev pub or_next :
        Result S (Option ℕ) → Action (payloads c) S IdentifyExchangeRequestError ℕ → Result S ℕ
    or_next (ok (some id), ctx) again = (ok id, ctx)
    or_next (ok none, ctx) again = again ctx
    or_next (err e, ctx) again = again ctx
    or_next (panic, ctx) again = (panic, ctx)

    abbrev pub at_last : Result S (Option ℕ) → Result S ℕ
    at_last (ok (some id), ctx) = (ok id, ctx)
    at_last (ok none, ctx) = (err (state_error operator_instance_id_could_not_be_determined), ctx)
    at_last (err e, ctx) = (err e, ctx)
    at_last (panic, ctx) = (panic, ctx)

  module _ (S : Type 0) where
    abbrev pub Act : Type 0 → Type 0
    Act A = Action (payloads c) S IdentifyExchangeRequestError A

  module _ {S : Type 0} (env : Environment (payloads c)) where
    unfoldable pub get_exchange_operator_instance_id : ℕ → Text → Act S (Option ℕ)
    unfolding send_request read_instance
    get_exchange_operator_instance_id query_id exchange_id ctx =
        (send_request env Names.query_handler_requests (
              new_message env
                (of_query_requests (list_operator_instances_request query_id exchange_id)) ctx)
            >>= λ resp_msg. λ after. (read_instance resp_msg.msg, after))
          ctx

    unfoldable pub get_exchange_operator_instance_id_with_retry : ℕ → ℕ → Text → Act S ℕ
    unfolding get_exchange_operator_instance_id
    get_exchange_operator_instance_id_with_retry zero query_id exchange_id ctx =
        at_last (get_exchange_operator_instance_id query_id exchange_id ctx)
    get_exchange_operator_instance_id_with_retry (suc retries) query_id exchange_id ctx =
        or_next (get_exchange_operator_instance_id query_id exchange_id ctx)
          (get_exchange_operator_instance_id_with_retry retries query_id exchange_id)

    unfoldable pub get_exchange_worker_id : Option ℕ → Act S ℕ
    unfolding send_request read_worker set_route_to_operation_id
    get_exchange_worker_id none ctx = (err (state_error exchange_operator_instance_id_not_set), ctx)
    get_exchange_worker_id (some id) ctx =
        (send_request env Names.ping
              (set_route_to_operation_id (new_message env (of_ping ping) ctx) id)
            >>= λ resp_msg. λ after. (read_worker resp_msg resp_msg.msg, after))
          ctx

    unfoldable pub identify_exchange : ℕ → Text → Act S IdentifyExchangeRequest
    unfolding get_exchange_operator_instance_id_with_retry get_exchange_worker_id retry_request
    identify_exchange query_id exchange_id = do
      id ← get_exchange_operator_instance_id_with_retry 10 query_id exchange_id
      worker_id ← retry_request 10 (get_exchange_worker_id (some id))
      pure (record { exchange_operator_instance_id = some id; exchange_worker_id = some worker_id })

    unfoldable pub request : ℕ → Text → Act S IdentifyExchangeResponse
    unfolding identify_exchange
    request query_id exchange_id = do
      res ← identify_exchange query_id exchange_id
      λ ctx. (response_of res.exchange_operator_instance_id res.exchange_worker_id, ctx)

    -- One request for each exchange, in the order of the list.
    unfoldable pub request_each : ℕ → List Text → Act S (List IdentifyExchangeResponse)
    unfolding request
    request_each query_id [] = pure []
    request_each query_id (exchange_id ∷ ids) = do
      res ← request query_id exchange_id
      more ← request_each query_id ids
      pure (res ∷ more)

    unfoldable pub request_outbound_exchange :
        OperatorInstanceConfig X → Act S IdentifyExchangeResponse
    unfolding request
    request_outbound_exchange config = elim config.operator.operator_type [
      | producer task outbound inbound ↦ request config.query_id outbound
      | exchange task outbound inbound ↦ throw (state_error operator_type_not_implemented)
    ]

    unfoldable pub request_inbound_exchanges :
        OperatorInstanceConfig X → Act S (List IdentifyExchangeResponse)
    unfolding request_each
    request_inbound_exchanges config = elim config.operator.operator_type [
      | producer task outbound inbound ↦ request_each config.query_id inbound
      | exchange task outbound inbound ↦ throw (state_error operator_type_not_implemented)
    ]
