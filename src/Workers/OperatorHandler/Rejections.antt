-- ===== src/Workers/OperatorHandler/Rejections.antt =====
-- What becomes of a query whose operator no worker can build: from the operator handler, which rejects the
-- instance, to the query handler.
use chapterhouse_qe.Common.{
  ℕ, List, ◌≡◌, refl, sym, ap, ◌∙◌, some, Text, codes, Outcome, ok, err, panic,
}
use chapterhouse_qe.External.{External}
use chapterhouse_qe.Planner.Physical.Operators.{Operator, producer, filter}
use chapterhouse_qe.Messages.Payloads.{
  Codec, Payload, payloads, assign, assign_rejected_response, get_query_id, get_op_instance_id,
  get_pipeline_id, of_assignment,
}
use chapterhouse_qe.Messages.Message.{Message}
use chapterhouse_qe.Workers.Actions.{Environment, Context, reply, changed, and_then, update}
use chapterhouse_qe.Workers.Actions.Keeping.{unchanged, reply-Keeps}
use chapterhouse_qe.Workers.Builder.{OperatorTaskRegistry, build_operator}
use chapterhouse_qe.Workers.Instances.{
  running, OperatorInstanceConfig, OperatorHandlerState, OperatorHandlerStateError,
}
use chapterhouse_qe.Workers.OperatorHandler.{
  answer, handle_payload, try_from, handle_operator_instance_assignment, handle_message,
}
use chapterhouse_qe.Workers.OperatorHandler
use chapterhouse_qe.Workers.Queries.{
  QueryHandlerState, QueryHandlerStateError, Status, error, update_operator_instance_status,
}
use chapterhouse_qe.Workers.Queries.Progress.{
  status_of, update_query_status-status_of, update_operator_instance_status-status_of,
}
use chapterhouse_qe.Workers.Planned.{Outside}
use chapterhouse_qe.Workers.QueryHandler.{handle_operator_instance_assignment_responses}
use chapterhouse_qe.Workers.QueryHandler

abbrev pub unimplemented : Text
unimplemented = codes "not implemented: filter operator task"

abbrev pub rejection : {X : External} → ℕ → ℕ → Text → Payload X
rejection query_id op_in_id pipeline_id =
    of_assignment (assign_rejected_response query_id op_in_id pipeline_id unimplemented)

module _ {X : External} (c : Codec X) where
  -- A query handler that hears of a rejection.
  set_after :
      (id : ℕ) (status : Status) (ctx : Context (payloads c) (QueryHandlerState X))
      (r : Outcome QueryHandlerStateError (QueryHandlerState X))
      → ((t : QueryHandlerState X) → r ≡ ok t → status_of ctx.state id ≡ status_of t id)
      → status_of ctx.state id ≡ some status
      → status_of (changed ctx r).1.state id ≡ some status
  set_after id status ctx (ok t) h e = sym (h t refl) ∙ e
  set_after id status ctx (err x) h e = e
  set_after id status ctx panic h e = e

  rejection_fails :
      (env : Environment (payloads c)) (out : Outside X) (msg : Message (payloads c))
      (query_id op_in_id : ℕ) (pipeline_id text : Text) (was : Status)
      (ctx : Context (payloads c) (QueryHandlerState X))
      → status_of ctx.state query_id ≡ some was
      → msg.msg ≡ of_assignment (assign_rejected_response query_id op_in_id pipeline_id text)
      → status_of (QueryHandler.handle_message c env out msg ctx).1.state query_id
        ≡ some (error text)
  unfolding QueryHandler.handle_message handle_operator_instance_assignment_responses
  rejection_fails env out msg query_id op_in_id pipeline_id text was ctx h e =
      let (t, updated, failed) =
        update_query_status-status_of ctx.state query_id was (error text) h in
      let then_instance = λ (r : Outcome QueryHandlerStateError (QueryHandlerState X)).
        status_of
          (and_then (changed ctx r) (λ done.
            update (λ s. update_operator_instance_status s query_id op_in_id (error text)))).1.state
          query_id in
      rw (e, QueryHandler.handle_message)
        (ap then_instance updated
          ∙ set_after query_id (error text) (record ctx { state = t })
              (update_operator_instance_status t query_id op_in_id (error text))
              (λ u k.
                update_operator_instance_status-status_of t u query_id op_in_id (error text) k
                  query_id)
              failed)

  rejects :
      (env : Environment (payloads c)) (reg : OperatorTaskRegistry X) (msg : Message (payloads c))
      (query_id op_in_id : ℕ) (pipeline_id : Text) (operator : Operator X) (expr : X.Expr)
      (outbound : Text) (inbound : List Text) (ctx : Context (payloads c) (OperatorHandlerState X))
      → msg.msg ≡ of_assignment (assign query_id op_in_id pipeline_id operator)
      → operator.operator_type ≡ producer (filter expr) outbound inbound
      → OperatorHandler.handle_message c env reg msg ctx
        ≡ reply env msg (rejection query_id op_in_id pipeline_id) ctx
  unfolding OperatorHandler.handle_message handle_operator_instance_assignment try_from
      build_operator get_query_id get_op_instance_id get_pipeline_id
  rejects env reg msg query_id op_in_id pipeline_id operator expr outbound inbound ctx e k =
      let config : OperatorInstanceConfig X = record {
        id = op_in_id;
        query_id = query_id;
        pipeline_id = pipeline_id;
        operator = operator;
      } in
      ap (λ p. handle_payload c env reg msg p ctx) e
      ∙ ap
          (λ t.
            answer c env reg msg (assign query_id op_in_id pipeline_id operator)
              (record { status = running; config = config }) (build_operator reg config t) ctx)
          k

  -- An operator handler that is assigned a filter does not run it: it answers that the instance is
  -- rejected, and keeps its instances. A query handler that has the query and is told so gives the query
  -- the status of an error, with the text that a filter is not implemented.
  pub filter_fails :
      (reg : OperatorTaskRegistry X) (out : Outside X) (env env' : Environment (payloads c))
      (msg back : Message (payloads c)) (query_id op_in_id : ℕ) (pipeline_id : Text)
      (operator : Operator X) (expr : X.Expr) (outbound : Text) (inbound : List Text)
      (ctx : Context (payloads c) (OperatorHandlerState X))
      (ctx' : Context (payloads c) (QueryHandlerState X)) (was : Status)
      → msg.msg ≡ of_assignment (assign query_id op_in_id pipeline_id operator)
      → operator.operator_type ≡ producer (filter expr) outbound inbound
      → back.msg ≡ rejection query_id op_in_id pipeline_id
      → status_of ctx'.state query_id ≡ some was
      → (OperatorHandler.handle_message c env reg msg ctx
          ≡ reply env msg (rejection query_id op_in_id pipeline_id) ctx)
        × (ctx.state ≡ (OperatorHandler.handle_message c env reg msg ctx).1.state)
        × (status_of (QueryHandler.handle_message c env' out back ctx').1.state query_id
            ≡ some (error unimplemented))
  filter_fails reg out env env' msg back query_id op_in_id pipeline_id operator expr outbound
        inbound ctx ctx' was e k told there =
      let answered =
        rejects env reg msg query_id op_in_id pipeline_id operator expr outbound inbound ctx e k in
      (
        answered,
        reply-Keeps (payloads c) OperatorHandlerStateError (unchanged (OperatorHandlerState X)) env
              msg (rejection query_id op_in_id pipeline_id) ctx
            ∙ ap (λ r. r.1.state) (sym answered),
        rejection_fails env' out back query_id op_in_id pipeline_id unimplemented was ctx' there
            told,
      )
