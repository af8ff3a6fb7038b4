-- ===== src/Messages/Routing/Replies.antt =====
-- The way of a request to another worker and of its reply back, through pipes, routers and connections.
use chapterhouse_qe.Common.{
  ℕ, ◌≡◌, refl, sym, ap, subst, Bool, true, false, not, ◌&&◌, ◌||◌, some, List, [], ◌∷◌, map,
  select, All, arith, Bool-cases, inl, inr,
}
use chapterhouse_qe.External.{External}
use chapterhouse_qe.Messages.Payloads.{Codec, Payload, payloads, of_identify}
use chapterhouse_qe.Messages.Message.{Payloads, Message, reply, set_sent_from_worker_id}
use chapterhouse_qe.Messages.Message.Delivery.{received}
use chapterhouse_qe.Messages.Pipe.{Pipe, outgoing}
use chapterhouse_qe.Messages.Router.{
  MessageRouterState, InternalSubscriber, is_id, is_absent, route_to_internal_subscriber,
}
use chapterhouse_qe.Messages.Routing.{to_operator, to_operators, routed_as, route_msg, internal}
use chapterhouse_qe.Messages.Connection.{Connection, mark}

module _ {P : Payloads} where
  -- What comes of a message that an operator of a worker puts on its pipe, where it arrives.
  abbrev pub over_the_wire : ℕ → Pipe P → Connection → Message P → Message P
  over_the_wire worker_id p conn m =
      mark conn (received (set_sent_from_worker_id (outgoing p m) worker_id))

  abbrev takes : Message P → InternalSubscriber P → Bool
  takes msg item =
      (is_id item.operator_id msg.route_to_operation_id || is_absent msg.route_to_operation_id)
      && not (is_id item.operator_id msg.sent_from_operation_id)
      && item.consumes_message msg

  takes_own :
      (op : ℕ) (msg : Message P) (item : InternalSubscriber P)
      → msg.route_to_operation_id ≡ some op
      → takes msg item ≡ true
      → item.operator_id ≡ op
  takes_own op msg item e t =
      let own : (is_id item.operator_id (some op) || is_absent (some op)) ≡ true =
        subst (λ o. (is_id item.operator_id o || is_absent o) ≡ true) e (ground (arith, t)) in
      ground (arith, own)

  only_one :
      (op : ℕ) (msg sent : Message P) (subs : List (InternalSubscriber P))
      → msg.route_to_operation_id ≡ some op
      → All
          (λ x. x ≡ to_operator op sent)
          (to_operators sent (map (λ item. item.operator_id) (select (takes msg) subs)))
  only_one op msg sent [] e = tt
  only_one op msg sent (item ∷ subs) e = elim (Bool-cases (takes msg item)) [
    | inl t ↦
        rw (t)
          (ap (λ id. to_operator id sent) (takes_own op msg item e t), only_one op msg sent subs e)
    | inr t ↦ rw (t) (only_one op msg sent subs e)
  ]

  internal_one :
      (worker_id op : ℕ) (msg : Message P) (s : MessageRouterState P)
      → msg.route_to_operation_id ≡ some op
      → All
          (λ x. x ≡ to_operator op msg)
          (to_operators msg (route_to_internal_subscriber worker_id s msg))
  unfolding route_to_internal_subscriber
  internal_one worker_id op msg s e =
      elim (Bool-cases
        (not (is_absent msg.route_to_worker_id) && not (is_id worker_id msg.route_to_worker_id))) [
          | inl t ↦ rw (t, route_to_internal_subscriber) tt
          | inr t ↦
              rw (t, route_to_internal_subscriber) (only_one op msg msg s.internal_subscribers e)
        ]

abbrev is_identify : {X : External} → Payload X → Bool
is_identify (of_identify m) = true
is_identify _ = false

module _ {X : External} (c : Codec X) where
  routed_internal :
      (worker_id i j : ℕ) (s : MessageRouterState (payloads c)) (msg : Message (payloads c))
      (p : Payload X)
      → is_identify p ≡ false
      → routed_as c worker_id i j s msg p ≡ internal c worker_id i j s msg
  unfolding routed_as
  routed_internal worker_id i j s msg (of_identify m) h = absurd (cc)
  routed_internal worker_id i j s msg _ h = refl

  pub route_msg_one :
      (worker_id op i j : ℕ) (msg : Message (payloads c)) (s : MessageRouterState (payloads c))
      → is_identify msg.msg ≡ false
      → msg.route_to_operation_id ≡ some op
      → All (λ x. x ≡ to_operator op msg) (route_msg c worker_id i j s msg).sent
  unfolding route_msg
  route_msg_one worker_id op i j msg s h e =
      subst (λ r. All (λ x. x ≡ to_operator op msg) r.sent)
        (sym (routed_internal worker_id i j s msg msg.msg h)) (internal_one worker_id op msg s e)

  module _ (a b op i j k l : ℕ) (pa pb : Pipe (payloads c)) (to_b to_a : Connection)
      (q : Message (payloads c)) (answer : Payload X) where
    -- The request where it arrives, the reply to it, and the reply where it arrives.
    abbrev pub asked : Message (payloads c)
    asked = over_the_wire a pa to_b q

    abbrev pub replied : Message (payloads c)
    replied = reply i j asked answer

    abbrev pub answered : Message (payloads c)
    answered = over_the_wire b pb to_a replied
