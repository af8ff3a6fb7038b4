-- ===== src/Workers/Queries/Exchanges.antt =====
-- src/handlers/query_handler/query_handler_state.rs: what the state says of the exchanges of a query.
use chapterhouse_qe.Common.{
  ℕ, Bool, true, false, not, ◌&&◌, List, [], ◌∷◌, ◌++◌, if◌then◌else◌, any, Text, text_eq, Outcome,
  ok, err, ◌>>=◌,
}
use chapterhouse_qe.External.{External}
use chapterhouse_qe.Planner.Physical.Operators.{
  Operator, OperatorType, Pipeline, producer, exchange, get_operator,
}
use chapterhouse_qe.Workers.Queries.{
  QueryHandlerState, QueryHandlerStateError, operator_not_in_physical_plan,
  expected_producer_operator_type, find_query, find_operator_instance, get_operator_instances,
  is_complete, or_not_found,
}

module _ {X : External} where
  unfoldable pub outbound_of : OperatorType X → Outcome QueryHandlerStateError Text
  outbound_of (producer task out ins) = ok out
  outbound_of (exchange task outs ins) = err expected_producer_operator_type

  unfoldable pub inbound_of : OperatorType X → Outcome QueryHandlerStateError (List Text)
  inbound_of (producer task out ins) = ok ins
  inbound_of (exchange task outs ins) = err expected_producer_operator_type

  unfoldable pub is_producer : OperatorType X → Bool
  is_producer (producer task out ins) = true
  is_producer (exchange task outs ins) = false

  -- The operator of an instance of a query, which the three functions below look up alike.
  unfoldable pub operator_of_instance :
      QueryHandlerState X → ℕ → ℕ → Outcome QueryHandlerStateError (Operator X)
  unfolding find_query find_operator_instance get_operator
  operator_of_instance s query_id op_in_id = do
    q ← find_query s query_id
    op_in ← find_operator_instance q op_in_id
    or_not_found (operator_not_in_physical_plan op_in.operator_id)
        (get_operator q.physical_plan op_in.pipeline_id op_in.operator_id)

  unfoldable pub get_outbound_exchange_id :
      QueryHandlerState X → ℕ → ℕ → Outcome QueryHandlerStateError Text
  unfolding operator_of_instance outbound_of
  get_outbound_exchange_id s query_id op_in_id = do
    op ← operator_of_instance s query_id op_in_id
    outbound_of op.operator_type

  unfoldable pub get_inbound_exchange_ids :
      QueryHandlerState X → ℕ → ℕ → Outcome QueryHandlerStateError (List Text)
  unfolding operator_of_instance inbound_of
  get_inbound_exchange_ids s query_id op_in_id = do
    op ← operator_of_instance s query_id op_in_id
    inbound_of op.operator_type

  unfoldable pub operator_instance_is_producer :
      QueryHandlerState X → ℕ → ℕ → Outcome QueryHandlerStateError Bool
  unfolding operator_of_instance is_producer
  operator_instance_is_producer s query_id op_in_id = do
    op ← operator_of_instance s query_id op_in_id
    ok (is_producer op.operator_type)

  unfoldable pub all_operator_instances_complete :
      QueryHandlerState X → ℕ → ℕ → Outcome QueryHandlerStateError Bool
  unfolding find_query find_operator_instance
  all_operator_instances_complete s query_id op_in_id = do
    q ← find_query s query_id
    op_in ← find_operator_instance q op_in_id
    ok (
        not (
          any (λ item. text_eq item.operator_id op_in.operator_id && not (is_complete item.status))
            q.operator_instances))

  -- The loop over operator ids that leaves the operator when an instance is not complete.
  unfoldable pub any_not_complete :
      QueryHandlerState X → ℕ → List Text → Outcome QueryHandlerStateError Bool
  unfolding get_operator_instances
  any_not_complete s query_id [] = ok false
  any_not_complete s query_id (op_id ∷ op_ids) = do
    op_instances ← get_operator_instances s query_id op_id
    let rest = any_not_complete s query_id op_ids in
        if any (λ op_in. not (is_complete op_in.status)) op_instances then ok true else rest

  -- Whether the turn of the loop for an operator pushes its id.
  unfoldable pub has_no_consumers :
      QueryHandlerState X → ℕ → OperatorType X → Outcome QueryHandlerStateError Bool
  unfolding any_not_complete
  has_no_consumers s query_id (producer task out ins) = ok false
  has_no_consumers s query_id (exchange task outs ins) = do
    waiting ← any_not_complete s query_id outs
    if waiting then ok false else do writing ← any_not_complete s query_id ins; ok (not writing)

  unfoldable pub exchanges_of_operators :
      QueryHandlerState X → ℕ → List (Operator X) → Outcome QueryHandlerStateError (List Text)
  unfolding has_no_consumers
  exchanges_of_operators s query_id [] = ok []
  exchanges_of_operators s query_id (op ∷ ops) = do
    idle ← has_no_consumers s query_id op.operator_type
    ids ← exchanges_of_operators s query_id ops
    ok (if idle then op.id ∷ ids else ids)

  unfoldable pub exchanges_of_pipelines :
      QueryHandlerState X → ℕ → List (Pipeline X) → Outcome QueryHandlerStateError (List Text)
  unfolding exchanges_of_operators
  exchanges_of_pipelines s query_id [] = ok []
  exchanges_of_pipelines s query_id (p ∷ ps) = do
    ids ← exchanges_of_operators s query_id p.operators
    more ← exchanges_of_pipelines s query_id ps
    ok (ids ++ more)

  unfoldable pub get_exchange_ids_without_any_consumers :
      QueryHandlerState X → ℕ → Outcome QueryHandlerStateError (List Text)
  unfolding find_query exchanges_of_pipelines
  get_exchange_ids_without_any_consumers s query_id = do
    q ← find_query s query_id
    exchanges_of_pipelines s query_id q.physical_plan.pipelines
