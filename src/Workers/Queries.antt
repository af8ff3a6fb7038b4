-- ===== src/Workers/Queries.antt =====
-- src/handlers/query_handler/query_handler_state.rs: `Query` and the queries that a worker holds. An id
-- is the number of a `u128`; a new one, from `Uuid::new_v4`, is an argument. A time is a number.
pub mod Exchanges
pub mod Claims
pub mod Updates
pub mod Init
pub mod Consumers
pub mod Progress
use chapterhouse_qe.Common.{
  ℕ, suc, ◌+◌, Bool, true, false, not, ◌&&◌, Option, none, some, List, [], ◌∷◌, ◌++◌, map, ◌==◌,
  if◌then◌else◌, any, find, select, length, Text, text_eq, Outcome, ok, err, ◌>>=◌,
}
use chapterhouse_qe.External.{External}
use chapterhouse_qe.Planner.Physical.Operators.{
  Operator, OperatorType, Pipeline, PhysicalPlan, producer, exchange, get_operator,
}

pub data QueryHandlerStateError : Type 0 where
  query_not_found : ℕ → QueryHandlerStateError
  operator_instance_not_found : ℕ → QueryHandlerStateError
  operator_instance_group_not_found : ℕ → ℕ → QueryHandlerStateError
  operator_not_in_physical_plan : Text → QueryHandlerStateError
  expected_producer_operator_type : QueryHandlerStateError

pub data Status : Type 0 where
  queued : Status
  sending_to_worker : Status
  running : Status
  sent_shutdown : ℕ → Status
  complete : Status
  error : Text → Status

unfoldable pub terminal : Status → Bool
terminal queued = false
terminal sending_to_worker = false
terminal running = false
terminal (sent_shutdown time) = false
terminal complete = true
terminal (error text) = true

abbrev pub is_running : Status → Bool
is_running queued = false
is_running sending_to_worker = false
is_running running = true
is_running (sent_shutdown time) = false
is_running complete = false
is_running (error text) = false

abbrev pub is_complete : Status → Bool
is_complete queued = false
is_complete sending_to_worker = false
is_complete running = false
is_complete (sent_shutdown time) = false
is_complete complete = true
is_complete (error text) = false

pub record OperatorInstance : Type 0 where
  pub id : ℕ
  pub status : Status
  pub pipeline_id : Text
  pub operator_id : Text

unfoldable pub new_operator_instance : ℕ → Text → Text → OperatorInstance
new_operator_instance id pipeline_id operator_id = record {
  id = id;
  status = queued;
  pipeline_id = pipeline_id;
  operator_id = operator_id;
}

module _ (X : External) where
  pub record Query : Type 0 where
    pub id : ℕ
    pub query : Text
    pub physical_plan : PhysicalPlan X
    pub status : Status
    pub operator_instances : List OperatorInstance

  pub record QueryHandlerState : Type 0 where
    pub queries : List (Query)

-- The first element that passes the test is changed.
abbrev pub update_first {ℓ} : {A : Type ℓ} → (A → Bool) → (A → A) → List A → List A
update_first p f [] = []
update_first p f (x ∷ xs) = if p x then f x ∷ xs else x ∷ update_first p f xs

abbrev pub or_not_found {ℓ} :
    {A : Type ℓ} → QueryHandlerStateError → Option A → Outcome QueryHandlerStateError A
or_not_found e none = err e
or_not_found e (some a) = ok a

module _ {X : External} where
  unfoldable pub new_query : ℕ → Text → PhysicalPlan X → Query X
  new_query id query physical_plan = record {
    id = id;
    query = query;
    physical_plan = physical_plan;
    status = queued;
    operator_instances = [];
  }

  -- The inner and the outer loop of `add_operator_instances_from_physical_plan`; the k-th instance gets
  -- the id `uuid k`.
  unfoldable pub operator_instances_of :
      (ℕ → ℕ) → ℕ → Text → List (Operator X) → List OperatorInstance
  unfolding new_operator_instance
  operator_instances_of uuid k pipeline_id [] = []
  operator_instances_of uuid k pipeline_id (op ∷ ops) =
      new_operator_instance (uuid k) pipeline_id op.id
      ∷ operator_instances_of uuid (suc k) pipeline_id ops

  unfoldable pub operator_instances_of_pipelines :
      (ℕ → ℕ) → ℕ → List (Pipeline X) → List OperatorInstance
  unfolding operator_instances_of
  operator_instances_of_pipelines uuid k [] = []
  operator_instances_of_pipelines uuid k (p ∷ ps) =
      operator_instances_of uuid k p.id p.operators
      ++ operator_instances_of_pipelines uuid (k + length p.operators) ps

  unfoldable pub init : (ℕ → ℕ) → Query X → Query X
  unfolding operator_instances_of_pipelines
  init uuid q = record q {
    operator_instances =
        q.operator_instances ++ operator_instances_of_pipelines uuid 0 q.physical_plan.pipelines;
  }

  unfoldable pub new : QueryHandlerState X
  new = record { queries = [] }

  unfoldable pub add_query : QueryHandlerState X → Query X → QueryHandlerState X
  add_query s q = record { queries = s.queries ++ (q ∷ []) }

  unfoldable pub find_query : QueryHandlerState X → ℕ → Outcome QueryHandlerStateError (Query X)
  find_query s query_id =
      or_not_found (query_not_found query_id) (find (λ item. item.id == query_id) s.queries)

  unfoldable pub find_operator_instance :
      Query X → ℕ → Outcome QueryHandlerStateError OperatorInstance
  find_operator_instance q op_instance_id =
      or_not_found (operator_instance_not_found op_instance_id)
        (find (λ item. item.id == op_instance_id) q.operator_instances)

  unfoldable pub get_operator_instance :
      QueryHandlerState X → ℕ → ℕ → Outcome QueryHandlerStateError OperatorInstance
  unfolding find_query find_operator_instance
  get_operator_instance s query_id op_instance_id = do
    q ← find_query s query_id
    find_operator_instance q op_instance_id

  unfoldable pub get_operator_instances :
      QueryHandlerState X → ℕ → Text → Outcome QueryHandlerStateError (List OperatorInstance)
  unfolding find_query
  get_operator_instances s query_id op_id = do
    q ← find_query s query_id
    ok (select (λ item. text_eq item.operator_id op_id) q.operator_instances)

  -- Whether a query is the one that `update_operator_instance_status` returns from: a query with the
  -- id but without the instance does not end its loop.
  abbrev pub holds : ℕ → ℕ → Query X → Bool
  holds query_id op_instance_id q =
      q.id == query_id && any (λ op_in. op_in.id == op_instance_id) q.operator_instances

  unfoldable pub update_operator_instance_status :
      QueryHandlerState X → ℕ → ℕ → Status → Outcome QueryHandlerStateError (QueryHandlerState X)
  update_operator_instance_status s query_id op_instance_id status =
      if any (holds query_id op_instance_id) s.queries
      then ok (record {
        queries =
            update_first (holds query_id op_instance_id)
              (λ q. record q {
                operator_instances =
                    update_first (λ op_in. op_in.id == op_instance_id)
                      (λ op_in. record op_in { status = status }) q.operator_instances;
              })
              s.queries;
      })
      else err (operator_instance_not_found op_instance_id)

  unfoldable pub update_query_status :
      QueryHandlerState X → ℕ → Status → Outcome QueryHandlerStateError (QueryHandlerState X)
  update_query_status s query_id status =
      if any (λ q. q.id == query_id) s.queries
      then ok (record {
        queries =
            update_first (λ q. q.id == query_id) (λ q. record q { status = status }) s.queries;
      })
      else err (query_not_found query_id)
