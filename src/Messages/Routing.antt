-- ===== src/Messages/Routing.antt =====
-- src/handlers/message_router_handler/message_router_handler.rs, `MessageRouterHandler`: where the router
-- sends a message that an operator or a connection hands to it. What it sends is a list, in order; the
-- channels are taken to accept it.
pub mod Replies
use chapterhouse_qe.Common.{
  ℕ, Bool, true, false, not, ◌&&◌, ◌||◌, ◌==◌, Option, none, some, List, [], ◌∷◌, ◌++◌, map,
  if◌then◌else◌, Outcome, ok, err, panic,
}
use chapterhouse_qe.External.{External}
use chapterhouse_qe.Messages.Payloads.{Codec, Payload, payloads, Identify, of_identify}
use chapterhouse_qe.Messages.Payloads
use chapterhouse_qe.Messages.Message.{
  Payloads, Message, new, set_sent_from_worker_id, set_route_to_worker_id,
  set_route_to_connection_id, set_inbound_stream_id, set_outbound_stream,
}
use chapterhouse_qe.Messages.Router.{
  MessageRouterState, inbound_client_connection, outbound_worker, add_external_subscriber,
  get_all_outbound_streams, get_worker_outbound_stream, route_to_internal_subscriber, is_absent,
}

-- A message for an operator of the worker, or for the connections.
pub data Sent (P : Payloads) : Type 0 where
  to_operator : ℕ → Message P → Sent P
  to_connection : Message P → Sent P

-- What a call changes, sends and returns.
pub record Routed (P : Payloads) : Type 0 where
  pub state : MessageRouterState P
  pub sent : List (Sent P)
  pub routed : Bool

abbrev pub some_operators : List ℕ → Bool
some_operators [] = false
some_operators (id ∷ ids) = true

module _ {P : Payloads} where
  abbrev pub to_operators : Message P → List ℕ → List (Sent P)
  to_operators msg ids = map (λ id. to_operator id msg) ids

  -- The loop over the outbound streams.
  unfoldable pub to_all_streams : Message P → MessageRouterState P → List (Sent P)
  unfolding get_all_outbound_streams set_outbound_stream
  to_all_streams msg s =
      map (λ id. to_connection (set_outbound_stream msg id)) (get_all_outbound_streams s)

  unfoldable pub to_worker : ℕ → Message P → MessageRouterState P → List (Sent P)
  unfolding get_worker_outbound_stream set_outbound_stream
  to_worker w msg s = elim (get_worker_outbound_stream s w) [
    | none ↦ []
    | some id ↦ to_connection (set_outbound_stream msg id) ∷ []
  ]

module _ {X : External} (c : Codec X) (worker_id msg_id request_id : ℕ) where
  abbrev pub me : Payload X
  me = of_identify (Payloads.worker worker_id)

  -- The message that answers a worker or a client.
  abbrev identify_back : ℕ → Message (payloads c)
  identify_back stream_id =
      set_inbound_stream_id
        (set_sent_from_worker_id (new {P = payloads c} msg_id request_id me) worker_id) stream_id

  unfoldable pub identify_external_subscriber :
      MessageRouterState (payloads c) → Message (payloads c) → Identify → Routed (payloads c)
  unfolding new set_sent_from_worker_id set_route_to_worker_id set_route_to_connection_id
      set_inbound_stream_id add_external_subscriber
  identify_external_subscriber s msg (Payloads.worker id) = elim msg.inbound_stream_id [
    | some stream_id ↦ record {
      state = s;
      sent = to_connection (set_route_to_worker_id (identify_back stream_id) id) ∷ [];
      routed = true;
    }
    | none ↦ elim msg.outbound_stream_id [
      | some stream_id ↦ record {
        state = add_external_subscriber s (outbound_worker id stream_id);
        sent = [];
        routed = true;
      }
      | none ↦ record { state = s; sent = []; routed = false }
    ]
  ]
  identify_external_subscriber s msg (Payloads.connection id) = elim msg.inbound_stream_id [
    | some stream_id ↦ record {
      state = add_external_subscriber s (inbound_client_connection id stream_id);
      sent = to_connection (set_route_to_connection_id (identify_back stream_id) id) ∷ [];
      routed = true;
    }
    | none ↦ record { state = s; sent = []; routed = false }
  ]

  abbrev pub internal : MessageRouterState (payloads c) → Message (payloads c) → Routed (payloads c)
  internal s msg =
      let ids = route_to_internal_subscriber worker_id s msg in
      record { state = s; sent = to_operators msg ids; routed = some_operators ids }

  -- By what a message carries.
  unfoldable pub routed_as :
      MessageRouterState (payloads c) → Message (payloads c) → Payload X → Routed (payloads c)
  unfolding identify_external_subscriber route_to_internal_subscriber
  routed_as s msg (of_identify m) = identify_external_subscriber s msg m
  routed_as s msg _ = internal s msg

  unfoldable pub route_msg :
      MessageRouterState (payloads c) → Message (payloads c) → Routed (payloads c)
  unfolding routed_as
  route_msg s msg = routed_as s msg msg.msg

  -- For an operator whose worker is not named: any of this worker, or else the other workers.
  abbrev pub or_elsewhere : Message (payloads c) → Routed (payloads c) → Routed (payloads c)
  or_elsewhere msg r =
      if r.routed then r else record r { sent = r.sent ++ to_all_streams msg r.state }

  abbrev pub to_named_worker :
      MessageRouterState (payloads c) → Message (payloads c) → ℕ → Routed (payloads c)
  to_named_worker s msg w =
      if w == worker_id
      then route_msg s msg
      else record { state = s; sent = to_worker w msg s; routed = true }

  -- To every operator of this worker that takes it, and to every other worker.
  abbrev pub broadcast : Message (payloads c) → Routed (payloads c) → Routed (payloads c)
  broadcast msg r = record r { sent = r.sent ++ to_all_streams msg r.state }

  -- The turn of `async_main` for a message of an operator.
  unfoldable pub route_from_operator :
      MessageRouterState (payloads c)
      → Message (payloads c)
      → Outcome (Unit {0}) (Routed (payloads c))
  unfolding route_msg to_all_streams to_worker set_sent_from_worker_id
  route_from_operator s unsigned =
      let msg = set_sent_from_worker_id unsigned worker_id in
      if not (is_absent msg.inbound_stream_id) || not (is_absent msg.outbound_stream_id)
      then ok (record { state = s; sent = to_connection msg ∷ []; routed = true })
      else elim msg.route_to_operation_id [
        | some id ↦ elim msg.route_to_worker_id [
          | some w ↦ ok (to_named_worker s msg w)
          | none ↦ ok (or_elsewhere msg (route_msg s msg))
        ]
        | none ↦ elim msg.route_to_worker_id [
          | some w ↦ ok (to_named_worker s msg w)
          | none ↦ elim msg.route_to_connection_id [
            | some id ↦ panic
            | none ↦ ok (broadcast msg (route_msg s msg))
          ]
        ]
      ]
