-- ===== src/Workers/Shutdowns/Relaunch.antt =====
-- What a claim makes of an exchange that was told to shut down.
use chapterhouse_qe.Common.{ℕ, ◌≡◌, refl, ap, ◌∙◌, subst, Outcome, ok, err, panic}
use chapterhouse_qe.External.{External}
use chapterhouse_qe.Planner.Physical.Operators.{PhysicalPlan}
use chapterhouse_qe.Messages.Payloads.{Codec, payloads}
use chapterhouse_qe.Workers.Compute.{TotalOperatorCompute}
use chapterhouse_qe.Workers.Actions.{Environment, Context, HandlerError, and_then, update, changed}
use chapterhouse_qe.Workers.Actions.Keeping.{unchanged}
use chapterhouse_qe.Workers.Requests.{shutdown_immediate_request}
use chapterhouse_qe.Workers.Requests.Keeping.{shutdown_immediate_request-Keeps}
use chapterhouse_qe.Workers.Queries.{
  QueryHandlerState, QueryHandlerStateError, OperatorInstance, queued, sent_shutdown,
  get_operator_instance, update_operator_instance_status,
}
use chapterhouse_qe.Workers.Queries.Claims.{claimable}
use chapterhouse_qe.Workers.Queries.Updates.{update_operator_instance_status-get}
use chapterhouse_qe.Workers.Planned.{Outside}
use chapterhouse_qe.Workers.Shutdowns.{shut_down_instance, now_status}

module _ {X : External} (c : Codec X) (env : Environment (payloads c)) (out : Outside X) where
  update_after :
      (query_id : ℕ) (op_in : OperatorInstance) (s : QueryHandlerState X)
      (r : Outcome (HandlerError QueryHandlerStateError) (Unit {0})
        × Context (payloads c) (QueryHandlerState X))
      → s ≡ r.1.state
      → get_operator_instance s query_id op_in.id ≡ ok op_in
      → (and_then r (λ done ctx.
          update
            (λ t. update_operator_instance_status t query_id op_in.id (now_status c env out ctx))
            ctx)).0
        ≡ ok tt
      → (time : ℕ) × (get_operator_instance
            (and_then r (λ done ctx.
              update
                (λ t.
                  update_operator_instance_status t query_id op_in.id (now_status c env out ctx))
                ctx)).1.state
            query_id
            op_in.id
          ≡ ok (record op_in { status = sent_shutdown time }))
  update_after query_id op_in s (err e, ctx) h found done = absurd (cc)
  update_after query_id op_in s (panic, ctx) h found done = absurd (cc)
  update_after query_id op_in s (ok t, ctx) h found done =
      let here = subst (λ s. get_operator_instance s query_id op_in.id ≡ ok op_in) h found in
      let (s', e, got) =
        update_operator_instance_status-get ctx.state query_id op_in.id (now_status c env out ctx)
          op_in here in
      (
        out.now ctx.calls,
        ap (λ r. get_operator_instance (changed ctx r).1.state query_id op_in.id) e ∙ got,
      )

  -- When an exchange instance has been told to shut down and has answered, a claim takes it as if it
  -- were a new one that waits for a worker: the code starts it again.
  pub shut_down_instance-claimable :
      (query_id : ℕ) (op_in : OperatorInstance) (ctx : Context (payloads c) (QueryHandlerState X))
      (plan : PhysicalPlan X) (available : TotalOperatorCompute)
      → get_operator_instance ctx.state query_id op_in.id ≡ ok op_in
      → (shut_down_instance c env out query_id op_in ctx).0 ≡ ok tt
      → (after : OperatorInstance) × (get_operator_instance
            (shut_down_instance c env out query_id op_in ctx).1.state
            query_id
            op_in.id
          ≡ ok after)
        × (claimable plan available after
            ≡ claimable plan available (record op_in { status = queued }))
  unfolding shut_down_instance claimable
  shut_down_instance-claimable query_id op_in ctx plan available found done =
      let kept =
        shutdown_immediate_request-Keeps c QueryHandlerStateError (unchanged (QueryHandlerState X))
          env op_in.id ctx in
      let (time, got) =
        update_after query_id op_in ctx.state (shutdown_immediate_request c env op_in.id ctx) kept
          found done in
      (record op_in { status = sent_shutdown time }, got, refl)
