-- ===== src/Workers/Identification/Answers.antt =====
-- What a request that identifies an exchange has been told.
use chapterhouse_qe.Common.{
  ℕ, zero, suc, ◌≡◌, refl, sym, subst, ap, ◌∙◌, Bool, true, false, if◌then◌else◌, ◌==◌, Option,
  none, some, [], ◌∷◌, Text, Outcome, ok, err, panic,
}
use chapterhouse_qe.External.{External}
use chapterhouse_qe.Messages.Names.{MessageName, as_u16}
use chapterhouse_qe.Messages.Payloads.{
  Codec, Payload, payloads, pong, list_operator_instances_response, of_ping, of_query_requests,
}
use chapterhouse_qe.Messages.Message.{Payloads, Message}
use chapterhouse_qe.Messages.Pipe.{PipeError, request_received_unexpected_message_name, expected}
use chapterhouse_qe.Workers.Actions.{
  Environment, Context, HandlerError, Action, of_pipe, and_then, await, send, send_request,
  or_again, retry_request,
}
use chapterhouse_qe.Workers.Identification.{
  IdentifyExchangeRequestError, IdentifyExchangeResponse, IdentifyExchangeRequest, Found,
  single_instance, or_no_worker, response_of, read_instance, read_worker, Result, or_next, at_last,
  get_exchange_operator_instance_id, get_exchange_operator_instance_id_with_retry,
  get_exchange_worker_id, identify_exchange, request,
}

module _ {X : External} (c : Codec X) where
  -- The reply that lists one instance, and the one that comes from a worker.
  abbrev pub Lists : ℕ → Outcome PipeError (Option (Message (payloads c))) → Type 0
  Lists id r =
      (m : Message (payloads c)) × (r ≡ ok (some m))
      × (m.msg ≡ of_query_requests (list_operator_instances_response (id ∷ [])))

  abbrev pub ComesFrom : ℕ → Outcome PipeError (Option (Message (payloads c))) → Type 0
  ComesFrom worker_id r =
      (m : Message (payloads c)) × (r ≡ ok (some m))
      × (m.msg ≡ of_ping pong)
      × (m.sent_from_worker_id ≡ some worker_id)

  -- Some call was answered so.
  abbrev pub Answered :
      Environment (payloads c)
      → (Outcome PipeError (Option (Message (payloads c))) → Type 0)
      → Type 0
  Answered env P = (k : ℕ) × P (env.receives k)

  read_instance-single :
      (p : Payload X) (id : ℕ)
      → read_instance c p ≡ ok (some id)
      → p ≡ of_query_requests (list_operator_instances_response (id ∷ []))
  unfolding read_instance single_instance
  read_instance-single (of_query_requests (list_operator_instances_response [])) id h = absurd (cc)
  read_instance-single (of_query_requests (list_operator_instances_response (j ∷ []))) id h = cc
  read_instance-single (of_query_requests (list_operator_instances_response (j ∷ k ∷ js))) id h =
      absurd (cc)
  read_instance-single _ id h = absurd (cc)

  or_no_worker_ok : (w : Option ℕ) (id : ℕ) → or_no_worker w ≡ ok id → w ≡ some id
  or_no_worker_ok none id h = absurd (cc)
  or_no_worker_ok (some w) id h = cc

  read_worker-ok :
      (m : Message (payloads c)) (p : Payload X) (id : ℕ)
      → read_worker c m p ≡ ok id
      → (p ≡ of_ping pong) × (m.sent_from_worker_id ≡ some id)
  unfolding read_worker
  read_worker-ok m (of_ping pong) id h = (refl, or_no_worker_ok m.sent_from_worker_id id h)
  read_worker-ok m _ id h = absurd (cc)

-- What the two parts of an answer make.
abbrev both : ℕ → ℕ → Found IdentifyExchangeRequest
both id worker_id =
    ok (record { exchange_operator_instance_id = some id; exchange_worker_id = some worker_id })

both_lem :
    (id worker_id : ℕ) (res : IdentifyExchangeRequest) (found : IdentifyExchangeResponse)
    → both id worker_id ≡ ok res
    → response_of res.exchange_operator_instance_id res.exchange_worker_id ≡ ok found
    → found ≡ (record { exchange_operator_instance_id = id; exchange_worker_id = worker_id })
both_lem id worker_id res found e h =
    let parts : (record {
      exchange_operator_instance_id = some id;
      exchange_worker_id = some worker_id;
    })
        ≡ res =
      cc in
    let all : ok (record { exchange_operator_instance_id = id; exchange_worker_id = worker_id })
        ≡ ok found =
      ap (λ r. response_of r.exchange_operator_instance_id r.exchange_worker_id) parts ∙ h in
    cc

module _ {P : Payloads} {E : Type 0} where
  if_ok :
      (b : Bool) (msg m : Message P) (e : PipeError)
      → of_pipe {E = E} (if b then ok msg else err e) ≡ ok m
      → msg ≡ m
  if_ok true msg m e h = cc
  if_ok false msg m e h = absurd (cc)

  expected_ok :
      (name : MessageName) (r : Outcome PipeError (Option (Message P))) (m : Message P)
      → of_pipe {E = E} (expected name r) ≡ ok m
      → r ≡ ok (some m)
  expected_ok name (ok (some msg)) m h =
      ap (λ x. ok (some x))
        (if_ok (as_u16 (P.msg_name msg.msg) == as_u16 name) msg m
          (request_received_unexpected_message_name name (P.msg_name msg.msg)) h)
  expected_ok name (ok none) m h = absurd (cc)
  expected_ok name (err e) m h = absurd (cc)
  expected_ok name panic m h = absurd (cc)

module _ {P : Payloads} {S E : Type 0} where
  and_then_ok :
      {A B : Type 0} (r : Outcome (HandlerError E) A × Context P S) (f : A → Action P S E B) (b : B)
      → (and_then r f).0 ≡ ok b
      → (a : A) × (r.0 ≡ ok a) × ((f a r.1).0 ≡ ok b)
  and_then_ok (ok a, ctx) f b h = (a, refl, h)
  and_then_ok (err e, ctx) f b h = absurd (cc)
  and_then_ok (panic, ctx) f b h = absurd (cc)

  module _ (env : Environment P) where
    await_ok :
        (name : MessageName) (ctx : Context P S) (m : Message P)
        → (await {E = E} env name ctx).0 ≡ ok m
        → (k : ℕ) × (env.receives k ≡ ok (some m))
    await_ok name ctx m h = (ctx.calls, expected_ok name (env.receives ctx.calls) m h)

    -- A request that succeeds has got the message that it returns.
    send_request_ok :
        (name : MessageName) (msg m : Message P) (ctx : Context P S)
        → (send_request {E = E} env name msg ctx).0 ≡ ok m
        → (k : ℕ) × (env.receives k ≡ ok (some m))
    unfolding send_request
    send_request_ok name msg m ctx h =
        let (done, sent, rest) = and_then_ok (send env msg ctx) (λ done. await env name) m h in
        await_ok name (send {E = E} env msg ctx).1 m rest

  or_again_ok :
      {A : Type 0} (Q : Type 0) (r : Outcome (HandlerError E) A × Context P S)
      (again : Action P S E A) (a : A)
      → (r.0 ≡ ok a → Q)
      → ((ctx : Context P S) → (again ctx).0 ≡ ok a → Q)
      → (or_again r again).0 ≡ ok a
      → Q
  or_again_ok Q (ok b, ctx) again a first next h = first h
  or_again_ok Q (err e, ctx) again a first next h = next ctx h
  or_again_ok Q (panic, ctx) again a first next h = absurd (cc)

  -- What is returned after retries is what some try returned.
  retry_request_ok :
      {A : Type 0} (Q : Type 0) (retries : ℕ) (try : Action P S E A) (a : A) (ctx : Context P S)
      → ((before : Context P S) → (try before).0 ≡ ok a → Q)
      → (retry_request retries try ctx).0 ≡ ok a
      → Q
  unfolding retry_request
  retry_request_ok Q zero try a ctx told h = told ctx h
  retry_request_ok Q (suc retries) try a ctx told h =
      or_again_ok Q (try ctx) (retry_request retries try) a (told ctx)
        (λ after. retry_request_ok Q retries try a after told) h

module _ {X : External} (c : Codec X) {S : Type 0} (env : Environment (payloads c)) where
  or_next_ok :
      (Q : Type 0) (r : Result c S (Option ℕ))
      (again : Action (payloads c) S IdentifyExchangeRequestError ℕ) (id : ℕ)
      → (r.0 ≡ ok (some id) → Q)
      → ((ctx : Context (payloads c) S) → (again ctx).0 ≡ ok id → Q)
      → (or_next c r again).0 ≡ ok id
      → Q
  or_next_ok Q (ok (some j), ctx) again id first next h = first cc
  or_next_ok Q (ok none, ctx) again id first next h = next ctx h
  or_next_ok Q (err e, ctx) again id first next h = next ctx h
  or_next_ok Q (panic, ctx) again id first next h = absurd (cc)

  at_last_ok : (r : Result c S (Option ℕ)) (id : ℕ) → (at_last c r).0 ≡ ok id → r.0 ≡ ok (some id)
  at_last_ok (ok (some j), ctx) id h = cc
  at_last_ok (ok none, ctx) id h = absurd (cc)
  at_last_ok (err e, ctx) id h = absurd (cc)
  at_last_ok (panic, ctx) id h = absurd (cc)

  instance_told :
      (query_id : ℕ) (exchange_id : Text) (id : ℕ) (ctx : Context (payloads c) S)
      → (get_exchange_operator_instance_id c env query_id exchange_id ctx).0 ≡ ok (some id)
      → Answered c env (Lists c id)
  unfolding get_exchange_operator_instance_id
  instance_told query_id exchange_id id ctx h =
      let (m, got, read) = and_then_ok _ _ (some id) h in
      let (k, e) = send_request_ok env _ _ m ctx got in
      (k, (m, e, read_instance-single c m.msg id read))

  worker_told :
      (id worker_id : ℕ) (ctx : Context (payloads c) S)
      → (get_exchange_worker_id c env (some id) ctx).0 ≡ ok worker_id
      → Answered c env (ComesFrom c worker_id)
  unfolding get_exchange_worker_id
  worker_told id worker_id ctx h =
      let (m, got, read) = and_then_ok _ _ worker_id h in
      let (k, e) = send_request_ok env _ _ m ctx got in
      let (pongs, from) = read_worker-ok c m m.msg worker_id read in (k, (m, e, pongs, from))

  tries_told :
      (retries query_id : ℕ) (exchange_id : Text) (id : ℕ) (ctx : Context (payloads c) S)
      → (get_exchange_operator_instance_id_with_retry c env retries query_id exchange_id ctx).0
        ≡ ok id
      → Answered c env (Lists c id)
  unfolding get_exchange_operator_instance_id_with_retry
  tries_told zero query_id exchange_id id ctx h =
      instance_told query_id exchange_id id ctx (at_last_ok _ id h)
  tries_told (suc retries) query_id exchange_id id ctx h =
      or_next_ok (Answered c env (Lists c id)) _
        (get_exchange_operator_instance_id_with_retry c env retries query_id exchange_id) id
        (instance_told query_id exchange_id id ctx) (tries_told retries query_id exchange_id id) h

  -- A request that identifies an exchange, after whatever tries, returns an instance that the query
  -- handler has listed as the only one, and a worker that a pong has come from.
  pub request-answered :
      (query_id : ℕ) (exchange_id : Text) (ctx : Context (payloads c) S)
      (found : IdentifyExchangeResponse)
      → (request c env query_id exchange_id ctx).0 ≡ ok found
      → Answered c env (Lists c found.exchange_operator_instance_id)
        × Answered c env (ComesFrom c found.exchange_worker_id)
  unfolding request identify_exchange
  request-answered query_id exchange_id ctx found h =
      let (res, identified, response) = and_then_ok _ _ found h in
      let (id, listed, rest) = and_then_ok _ _ res identified in
      let (worker_id, ponged, made) = and_then_ok _ _ res rest in
      let same = both_lem id worker_id res found made response in
      (
        subst (λ f. Answered c env (Lists c f.exchange_operator_instance_id)) (sym same)
            (tries_told 10 query_id exchange_id id ctx listed),
        subst (λ f. Answered c env (ComesFrom c f.exchange_worker_id)) (sym same)
            (retry_request_ok (Answered c env (ComesFrom c worker_id)) 10
              (get_exchange_worker_id c env (some id)) worker_id _ (worker_told id worker_id)
              ponged),
      )
