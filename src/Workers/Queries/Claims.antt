-- ===== src/Workers/Queries/Claims.antt =====
-- src/handlers/query_handler/query_handler_state.rs,
-- `claim_operator_instances_up_to_compute_available`.
pub mod Budget
pub mod Reasons
pub mod Settling
use chapterhouse_qe.Common.{
  ℕ, Bool, true, false, ◌||◌, Option, none, some, List, [], ◌∷◌, ◌++◌, if◌then◌else◌,
}
use chapterhouse_qe.External.{External}
use chapterhouse_qe.Planner.Physical.Operators.{Operator, PhysicalPlan, get_operator}
use chapterhouse_qe.Workers.Compute.{
  TotalOperatorCompute, any_depleated, subtract_single_operator_compute,
}
use chapterhouse_qe.Workers.Queries.{
  Query, OperatorInstance, Status, queued, sending_to_worker, running, sent_shutdown, complete,
  error, terminal, is_running,
}
use chapterhouse_qe.Workers.Queries

module _ (X : External) where
  -- An entry of the result.
  pub record Claim : Type 0 where
    pub query_id : ℕ
    pub op_in : OperatorInstance
    pub operator : Operator X

  -- What the loop over the instances of a query leaves.
  pub record InQuery : Type 0 where
    pub status : Status
    pub compute : TotalOperatorCompute
    pub operator_instances : List OperatorInstance
    pub result : List Claim

  pub record InQueries : Type 0 where
    pub compute : TotalOperatorCompute
    pub queries : List (Query X)
    pub result : List Claim

abbrev pub sent : OperatorInstance → OperatorInstance
sent op_in = record op_in { status = sending_to_worker }

abbrev pub started : Status → Status
started queued = running
started sending_to_worker = sending_to_worker
started running = running
started (sent_shutdown time) = sent_shutdown time
started complete = complete
started (error text) = error text

module _ {X : External} where
  -- The operator of an instance that the loop does not `continue` past.
  unfoldable pub claimable :
      PhysicalPlan X → TotalOperatorCompute → OperatorInstance → Option (Operator X)
  unfolding get_operator terminal any_depleated subtract_single_operator_compute
  claimable plan compute op_in = elim (get_operator plan op_in.pipeline_id op_in.operator_id) [
    | none ↦ none
    | some operator ↦
        if is_running op_in.status || terminal op_in.status
        then none
        else if any_depleated (subtract_single_operator_compute compute operator.compute)
        then none
        else some operator
  ]

  abbrev pub keep_instance : OperatorInstance → InQuery X → InQuery X
  keep_instance op_in r = record r { operator_instances = op_in ∷ r.operator_instances }

  abbrev pub add_claim : ℕ → OperatorInstance → Operator X → InQuery X → InQuery X
  add_claim query_id op_in operator r = record r {
    operator_instances = op_in ∷ r.operator_instances;
    result = record { query_id = query_id; op_in = op_in; operator = operator } ∷ r.result;
  }

  unfoldable pub claim_instances :
      PhysicalPlan X → ℕ → Status → TotalOperatorCompute → List OperatorInstance → InQuery X
  unfolding claimable subtract_single_operator_compute
  claim_instances plan query_id status compute [] = record {
    status = status;
    compute = compute;
    operator_instances = [];
    result = [];
  }
  claim_instances plan query_id status compute (op_in ∷ rest) =
      elim (claimable plan compute op_in) [
        | none ↦ keep_instance op_in (claim_instances plan query_id status compute rest)
        | some operator ↦ add_claim query_id (sent op_in) operator (
            claim_instances plan query_id (started status)
              (subtract_single_operator_compute compute operator.compute) rest)
      ]

  abbrev pub keep_query : Query X → InQueries X → InQueries X
  keep_query q r = record r { queries = q ∷ r.queries }

  abbrev pub join_query : Query X → InQuery X → InQueries X → InQueries X
  join_query q here r = record r {
    queries =
        record q { status = here.status; operator_instances = here.operator_instances } ∷ r.queries;
    result = here.result ++ r.result;
  }

  unfoldable pub claim_queries : TotalOperatorCompute → List (Query X) → InQueries X
  unfolding claim_instances any_depleated terminal
  claim_queries compute [] = record { compute = compute; queries = []; result = [] }
  claim_queries compute (q ∷ qs) = elim (any_depleated compute) [
    | true ↦ record { compute = compute; queries = q ∷ qs; result = [] }
    | false ↦ elim (terminal q.status) [
      | true ↦ keep_query q (claim_queries compute qs)
      | false ↦
          let here = claim_instances q.physical_plan q.id q.status compute q.operator_instances in
          join_query q here (claim_queries here.compute qs)
    ]
  ]

  unfoldable pub claim_operator_instances_up_to_compute_available :
      Queries.QueryHandlerState X
      → TotalOperatorCompute
      → Queries.QueryHandlerState X × List (Claim X)
  unfolding claim_queries
  claim_operator_instances_up_to_compute_available s available =
      let r = claim_queries available s.queries in (record { queries = r.queries }, r.result)
