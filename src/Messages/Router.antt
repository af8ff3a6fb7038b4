-- ===== src/Messages/Router.antt =====
-- src/handlers/message_router_handler: the state of the router, `MessageRouterState`, and which operators
-- of the worker get a message. A subscriber is its operator's id and the messages that it consumes.
pub mod Streams
use chapterhouse_qe.Common.{
  ℕ, Bool, true, false, not, ◌&&◌, ◌||◌, ◌==◌, Option, none, some, List, [], ◌∷◌, ◌++◌, map, select,
  any, if◌then◌else◌,
}
use chapterhouse_qe.Messages.Message.{Payloads, Message}

-- `inbound_client_connection connection_id inbound_stream_id` and
-- `outbound_worker worker_id outbound_stream_id`.
pub data ExternalSubscriber : Type 0 where
  inbound_client_connection : ℕ → ℕ → ExternalSubscriber
  outbound_worker : ℕ → ℕ → ExternalSubscriber

-- `#[derive(PartialEq)]`.
abbrev pub subscriber_eq : ExternalSubscriber → ExternalSubscriber → Bool
subscriber_eq (inbound_client_connection c s) (inbound_client_connection d t) = c == d && s == t
subscriber_eq (inbound_client_connection c s) (outbound_worker w t) = false
subscriber_eq (outbound_worker w s) (inbound_client_connection d t) = false
subscriber_eq (outbound_worker w s) (outbound_worker v t) = w == v && s == t

pub record InternalSubscriber (P : Payloads) : Type 0 where
  pub operator_id : ℕ
  pub consumes_message : Message P → Bool

pub record MessageRouterState (P : Payloads) : Type 0 where
  pub external_subscribers : List ExternalSubscriber
  pub internal_subscribers : List (InternalSubscriber P)

unfoldable pub outbound_streams : List ExternalSubscriber → List ℕ
outbound_streams [] = []
outbound_streams (inbound_client_connection connection_id stream_id ∷ subs) = outbound_streams subs
outbound_streams (outbound_worker worker_id stream_id ∷ subs) = stream_id ∷ outbound_streams subs

unfoldable pub worker_stream : ℕ → List ExternalSubscriber → Option ℕ
worker_stream w_id [] = none
worker_stream w_id (inbound_client_connection connection_id stream_id ∷ subs) =
    worker_stream w_id subs
worker_stream w_id (outbound_worker worker_id stream_id ∷ subs) =
    if w_id == worker_id then some stream_id else worker_stream w_id subs

abbrev pub is_id : ℕ → Option ℕ → Bool
is_id id none = false
is_id id (some other) = id == other

abbrev pub is_absent : Option ℕ → Bool
is_absent none = true
is_absent (some id) = false

module _ {P : Payloads} where
  unfoldable pub new : MessageRouterState P
  new = record { external_subscribers = []; internal_subscribers = [] }

  unfoldable pub add_internal_subscriber :
      MessageRouterState P → InternalSubscriber P → MessageRouterState P
  add_internal_subscriber s sub = record s {
    internal_subscribers = s.internal_subscribers ++ (sub ∷ []);
  }

  unfoldable pub remove_first : ℕ → List (InternalSubscriber P) → List (InternalSubscriber P)
  remove_first operator_id [] = []
  remove_first operator_id (sub ∷ subs) =
      if sub.operator_id == operator_id then subs else sub ∷ remove_first operator_id subs

  unfoldable pub remove_internal_subscriber : MessageRouterState P → ℕ → MessageRouterState P × Bool
  unfolding remove_first
  remove_internal_subscriber s operator_id = (
    record s { internal_subscribers = remove_first operator_id s.internal_subscribers },
    any (λ item. item.operator_id == operator_id) s.internal_subscribers,
  )

  unfoldable pub add_external_subscriber :
      MessageRouterState P → ExternalSubscriber → MessageRouterState P
  add_external_subscriber s sub = record s {
    external_subscribers =
        select (λ item. not (subscriber_eq item sub)) s.external_subscribers ++ (sub ∷ []);
  }

  unfoldable pub get_all_outbound_streams : MessageRouterState P → List ℕ
  unfolding outbound_streams
  get_all_outbound_streams s = outbound_streams s.external_subscribers

  unfoldable pub get_worker_outbound_stream : MessageRouterState P → ℕ → Option ℕ
  unfolding worker_stream
  get_worker_outbound_stream s w_id = worker_stream w_id s.external_subscribers

  -- The operators that a message for this worker is sent to; none for one that is for another worker.
  unfoldable pub route_to_internal_subscriber : ℕ → MessageRouterState P → Message P → List ℕ
  route_to_internal_subscriber worker_id s msg =
      if not (is_absent msg.route_to_worker_id) && not (is_id worker_id msg.route_to_worker_id)
      then []
      else map (λ item. item.operator_id)
          (select
            (λ item.
              (is_id item.operator_id msg.route_to_operation_id
                || is_absent msg.route_to_operation_id)
              && not (is_id item.operator_id msg.sent_from_operation_id)
              && item.consumes_message msg)
            s.internal_subscribers)
