-- ===== src/Workers/Shutdowns/Progress.antt =====
-- What a query handler does keeps the transitions of a query's status: its parts, and the notices to the
-- exchanges.
use chapterhouse_qe.Common.{ℕ, List, Text, Outcome}
use chapterhouse_qe.External.{External}
use chapterhouse_qe.Messages.Payloads.{Codec, Payload, payloads}
use chapterhouse_qe.Messages.Message.{Message}
use chapterhouse_qe.Workers.Actions.{Environment, pure, ◌>>=◌, ask, update, for_each, reply}
use chapterhouse_qe.Workers.Actions.Keeping.{
  Preorder, Keeps, pure-Keeps, bind-Keeps, ask-Keeps, update-Keeps, for_each-Keeps, reply-Keeps,
}
use chapterhouse_qe.Workers.Requests.{exchange_completed_request, shutdown_immediate_request}
use chapterhouse_qe.Workers.Requests.Keeping.{
  shutdown_immediate_request-Keeps, exchange_completed_request-Keeps,
}
use chapterhouse_qe.Workers.Queries.{
  QueryHandlerState, QueryHandlerStateError, Status, OperatorInstance, find_query,
  find_operator_instance, get_operator_instances, update_operator_instance_status,
}
use chapterhouse_qe.Workers.Queries.Exchanges.{
  get_outbound_exchange_id, get_exchange_ids_without_any_consumers,
}
use chapterhouse_qe.Workers.Queries.Progress.{
  here, ⟶*-trans, Progress, update_operator_instance_status-Progress,
}
use chapterhouse_qe.Workers.Planned.{Outside}
use chapterhouse_qe.Workers.Shutdowns.{
  Act, now_status, shut_down_instance, shut_down_exchange, notify_exchanges,
}

abbrev pub progress : (X : External) → Preorder (QueryHandlerState X)
progress X = record {
  Rel = Progress;
  same = λ s id. here;
  trans = λ s t u a b id. ⟶*-trans (a id) (b id);
}

module _ {X : External} (c : Codec X) where
  abbrev pub Progresses : {A : Type 0} → Act c A → Type 0
  Progresses m = Keeps (payloads c) QueryHandlerStateError (progress X) m

  pub bind-Progresses :
      {A B : Type 0} (m : Act c A) (f : A → Act c B)
      → Progresses m
      → ((a : A) → Progresses (f a))
      → Progresses (m >>= f)
  bind-Progresses m f = bind-Keeps (payloads c) QueryHandlerStateError (progress X) m f

  pub ask-Progresses :
      {A : Type 0} (f : QueryHandlerState X → Outcome QueryHandlerStateError A) → Progresses (ask f)
  ask-Progresses f = ask-Keeps (payloads c) QueryHandlerStateError (progress X) f

  pub for_each-Progresses :
      {A : Type 0} (xs : List A) (f : A → Act c (Unit {0}))
      → ((a : A) → Progresses (f a))
      → Progresses (for_each xs f)
  for_each-Progresses xs f = for_each-Keeps (payloads c) QueryHandlerStateError (progress X) xs f

  pub done-Progresses : Progresses (pure tt)
  done-Progresses = pure-Keeps (payloads c) QueryHandlerStateError (progress X) tt

  pub set_status-Progresses :
      (query_id op_in_id : ℕ) (status : Status)
      → Progresses (update (λ s. update_operator_instance_status s query_id op_in_id status))
  set_status-Progresses query_id op_in_id status =
      update-Keeps (payloads c) QueryHandlerStateError (progress X)
        (λ s. update_operator_instance_status s query_id op_in_id status)
        (λ s t. update_operator_instance_status-Progress s t query_id op_in_id status)

  module _ (env : Environment (payloads c)) (out : Outside X) where
    pub reply-Progresses :
        (msg : Message (payloads c)) (payload : Payload X) → Progresses (reply env msg payload)
    reply-Progresses msg payload =
        reply-Keeps (payloads c) QueryHandlerStateError (progress X) env msg payload

    shut_down_instance-Progresses :
        (query_id : ℕ) (exchange_instance : OperatorInstance)
        → Progresses (shut_down_instance c env out query_id exchange_instance)
    unfolding shut_down_instance
    shut_down_instance-Progresses query_id exchange_instance =
        bind-Progresses (shutdown_immediate_request c env exchange_instance.id) _
          (shutdown_immediate_request-Keeps c QueryHandlerStateError (progress X) env
            exchange_instance.id)
          (λ _ ctx.
            set_status-Progresses query_id exchange_instance.id (now_status c env out ctx) ctx)

    shut_down_exchange-Progresses :
        (query_id : ℕ) (exchange_id : Text)
        → Progresses (shut_down_exchange c env out query_id exchange_id)
    unfolding shut_down_exchange
    shut_down_exchange-Progresses query_id exchange_id =
        bind-Progresses (ask (λ s. get_operator_instances s query_id exchange_id)) _
          (ask-Progresses (λ s. get_operator_instances s query_id exchange_id))
          (λ instances.
            for_each-Progresses instances (shut_down_instance c env out query_id)
              (shut_down_instance-Progresses query_id))

    pub notify_exchanges-Progresses :
        (query_id op_in_id : ℕ) → Progresses (notify_exchanges c env out query_id op_in_id)
    unfolding notify_exchanges
    notify_exchanges-Progresses query_id op_in_id =
        bind-Progresses (ask (λ s. find_query s query_id)) _
          (ask-Progresses (λ s. find_query s query_id))
          (λ query.
            bind-Progresses (ask (λ s. find_operator_instance query op_in_id)) _
              (ask-Progresses (λ s. find_operator_instance query op_in_id))
              (λ op_in.
                bind-Progresses (ask (λ s. get_outbound_exchange_id s query_id op_in_id)) _
                  (ask-Progresses (λ s. get_outbound_exchange_id s query_id op_in_id))
                  (λ id.
                    bind-Progresses (ask (λ s. get_operator_instances s query_id id)) _
                      (ask-Progresses (λ s. get_operator_instances s query_id id))
                      (λ instances.
                        bind-Progresses
                          (for_each instances
                            (λ e. exchange_completed_request c env e.id op_in.operator_id))
                          _
                          (for_each-Progresses instances
                            (λ e. exchange_completed_request c env e.id op_in.operator_id)
                            (λ e.
                              exchange_completed_request-Keeps c QueryHandlerStateError (progress X)
                                env e.id op_in.operator_id))
                          (λ _.
                            bind-Progresses
                              (ask (λ s. get_exchange_ids_without_any_consumers s query_id)) _
                              (ask-Progresses
                                (λ s. get_exchange_ids_without_any_consumers s query_id))
                              (λ ids.
                                for_each-Progresses ids (shut_down_exchange c env out query_id)
                                  (shut_down_exchange-Progresses query_id)))))))
