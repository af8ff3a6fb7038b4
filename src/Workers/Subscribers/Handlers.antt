-- ===== src/Workers/Subscribers/Handlers.antt =====
-- The two handlers of a worker and the router between them.
use chapterhouse_qe.Common.{
  ℕ, ◌≡◌, ◌≢◌, refl, sym, ap, ◌∙◌, Bool, true, false, any, map, select, All, List, ◌==◌, Bool-cases,
  not, ◌&&◌, ◌||◌, Option, none, some, [], ◌∷◌, inl, inr, ◌⊎◌, arith,
}
use chapterhouse_qe.External.{External}
use chapterhouse_qe.Messages.Payloads.{
  Codec, Payload, payloads, GenericResponse, notification, notification_response, assign,
  assign_accepted_response, assign_rejected_response, of_response, of_available, of_assignment,
}
use chapterhouse_qe.Messages.Message.{Message}
use chapterhouse_qe.Messages.Router.{
  InternalSubscriber, MessageRouterState, is_id, is_absent, route_to_internal_subscriber,
}
use chapterhouse_qe.Workers.Subscribers.{
  query_handler_consumes, operator_handler_consumes, query_handler_subscriber,
  operator_handler_subscriber,
}

module _ {X : External} (c : Codec X) where
  -- Only a response may be consumed by both handlers.
  both_consume :
      (qh oh : ℕ) (msg : Message (payloads c)) (p : Payload X)
      → msg.msg ≡ p
      → ((query_handler_consumes c qh msg && operator_handler_consumes c oh msg) ≡ false)
        ⊎ ((m : GenericResponse) × (p ≡ of_response m))
  unfolding query_handler_consumes operator_handler_consumes
  both_consume qh oh msg (of_response m) e = inr (m, refl)
  both_consume qh oh msg (of_available notification) e =
      inl (rw (e, query_handler_consumes, operator_handler_consumes) refl)
  both_consume qh oh msg (of_available (notification_response can_accept_up_to)) e =
      inl (rw (e, query_handler_consumes, operator_handler_consumes) refl)
  both_consume qh oh msg (of_assignment (assign q i p o)) e =
      inl (rw (e, query_handler_consumes, operator_handler_consumes) refl)
  both_consume qh oh msg (of_assignment (assign_accepted_response q i p)) e =
      inl (rw (e, query_handler_consumes, operator_handler_consumes) refl)
  both_consume qh oh msg (of_assignment (assign_rejected_response q i p t)) e =
      inl (rw (e, query_handler_consumes, operator_handler_consumes) refl)
  both_consume qh oh msg _ e =
      inl (rw (e, query_handler_consumes, operator_handler_consumes) (ground arith))

  abbrev takes : ℕ → Bool → Message (payloads c) → Bool
  takes id consumes msg =
      (is_id id msg.route_to_operation_id || is_absent msg.route_to_operation_id)
      && not (is_id id msg.sent_from_operation_id)
      && consumes

  -- A response that the operator handler takes is routed to it.
  response_apart :
      (qh oh : ℕ) (msg : Message (payloads c)) (m : GenericResponse) (r : Option ℕ)
      → qh ≢ oh
      → msg.msg ≡ of_response m
      → msg.route_to_operation_id ≡ r
      → (takes qh (query_handler_consumes c qh msg) msg
          && takes oh (operator_handler_consumes c oh msg) msg)
        ≡ false
  unfolding operator_handler_consumes
  response_apart qh oh msg m none apart e k = rw (e, operator_handler_consumes, k) (ground arith)
  response_apart qh oh msg m (some r) apart e k =
      rw (e, operator_handler_consumes, k) (ground (arith, apart))

  one_takes :
      (qh oh : ℕ) (msg : Message (payloads c))
      → qh ≢ oh
      → (takes qh (query_handler_consumes c qh msg) msg
          && takes oh (operator_handler_consumes c oh msg) msg)
        ≡ false
  one_takes qh oh msg apart = elim (both_consume qh oh msg msg.msg refl) [
    | inl e ↦ ground (arith, e)
    | inr (m, e) ↦ response_apart qh oh msg m msg.route_to_operation_id apart e refl
  ]

  -- A subscriber of a worker's router: one of the two handlers, or any other one, which has an id of its
  -- own.
  pub data IsSubscriber (qh oh : ℕ) (sub : InternalSubscriber (payloads c)) : Type 0 where
    of_query_handler : sub ≡ query_handler_subscriber c qh → IsSubscriber qh oh sub
    of_operator_handler : sub ≡ operator_handler_subscriber c oh → IsSubscriber qh oh sub
    of_other : sub.operator_id ≢ qh → sub.operator_id ≢ oh → IsSubscriber qh oh sub

  query_handler_by_id :
      (qh oh : ℕ) (sub : InternalSubscriber (payloads c))
      → qh ≢ oh
      → IsSubscriber qh oh sub
      → sub.operator_id ≡ qh
      → sub ≡ query_handler_subscriber c qh
  unfolding operator_handler_subscriber
  query_handler_by_id qh oh sub apart (of_query_handler e) h = e
  query_handler_by_id qh oh sub apart (of_operator_handler e) h =
      absurd (apart (sym h ∙ ap (λ s. s.operator_id) e))
  query_handler_by_id qh oh sub apart (of_other n m) h = absurd (n h)

  operator_handler_by_id :
      (qh oh : ℕ) (sub : InternalSubscriber (payloads c))
      → qh ≢ oh
      → IsSubscriber qh oh sub
      → sub.operator_id ≡ oh
      → sub ≡ operator_handler_subscriber c oh
  unfolding query_handler_subscriber
  operator_handler_by_id qh oh sub apart (of_query_handler e) h =
      absurd (apart (sym (ap (λ s. s.operator_id) e) ∙ h))
  operator_handler_by_id qh oh sub apart (of_operator_handler e) h = e
  operator_handler_by_id qh oh sub apart (of_other n m) h = absurd (m h)

  -- What an id among the chosen ones says of the only subscriber that has it.
  chosen :
      (qh oh id : ℕ) (only : InternalSubscriber (payloads c))
      (by_id : (sub : InternalSubscriber (payloads c))
        → IsSubscriber qh oh sub
        → sub.operator_id ≡ id
        → sub ≡ only)
      (f : InternalSubscriber (payloads c) → Bool) (subs : List (InternalSubscriber (payloads c)))
      → All (IsSubscriber qh oh) subs
      → any (λ i. i == id) (map (λ item. item.operator_id) (select f subs)) ≡ true
      → f only ≡ true
  chosen qh oh id only by_id f [] h = λ k. absurd (cc)
  chosen qh oh id only by_id f (sub ∷ subs) h = elim (Bool-cases (f sub)) [
    | inr e ↦ rw e (chosen qh oh id only by_id f subs (h.1))
    | inl e ↦ elim (Bool-cases (sub.operator_id == id)) [
      | inl i ↦ λ k. ap f (sym (by_id sub (h.0) (ground (arith, i)))) ∙ e
      | inr i ↦ rw (e, i) (chosen qh oh id only by_id f subs (h.1))
    ]
  ]

  apart_lem :
      (x y p q : Bool)
      → (x ≡ true → p ≡ true)
      → (y ≡ true → q ≡ true)
      → (p && q) ≡ false
      → (x && y) ≡ false
  apart_lem false y p q h k e = refl
  apart_lem true false p q h k e = refl
  apart_lem true true p q h k e = absurd (ground (arith, e, h refl, k refl))

  -- Whatever else subscribes to the router of a worker under ids of its own, producers and exchanges
  -- among it, no message is sent to both the query handler and the operator handler.
  pub route_to_internal_subscriber-handlers :
      (worker_id qh oh : ℕ) (msg : Message (payloads c)) (s : MessageRouterState (payloads c))
      → qh ≢ oh
      → All (IsSubscriber qh oh) s.internal_subscribers
      → let to = route_to_internal_subscriber worker_id s msg in
        (any (λ id. id == qh) to && any (λ id. id == oh) to) ≡ false
  unfolding route_to_internal_subscriber query_handler_subscriber operator_handler_subscriber
  route_to_internal_subscriber-handlers worker_id qh oh msg s apart known =
      let one = one_takes qh oh msg apart in
      elim (Bool-cases
        (not (is_absent msg.route_to_worker_id) && not (is_id worker_id msg.route_to_worker_id))) [
          | inl e ↦ rw (e, route_to_internal_subscriber) refl
          | inr e ↦
              rw (e, route_to_internal_subscriber)
                (apart_lem _ _ (takes qh (query_handler_consumes c qh msg) msg)
                  (takes oh (operator_handler_consumes c oh msg) msg)
                  (chosen qh oh qh (query_handler_subscriber c qh)
                    (λ sub. query_handler_by_id qh oh sub apart) _ s.internal_subscribers known)
                  (chosen qh oh oh (operator_handler_subscriber c oh)
                    (λ sub. operator_handler_by_id qh oh sub apart) _ s.internal_subscribers known)
                  one)
        ]
