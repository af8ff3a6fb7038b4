-- ===== src/Planner/Physical/Operators.antt =====
-- src/planner/physical_planner.rs: the operators of a physical plan and the pipelines that hold them.
use chapterhouse_qe.Common.{
  ℕ, Bool, true, false, Option, none, some, List, [], ◌∷◌, ◌++◌, ◌==◌, ◌&&◌, if◌then◌else◌, any,
  find, select, Text, text_eq, codes,
}
use chapterhouse_qe.External.{External}
use chapterhouse_qe.Planner.Sql.{SelectItem}

pub data DataFormat : Type 0 where
  parquet : DataFormat

pub record OperatorCompute : Type 0 where
  pub instances : ℕ
  pub memory_in_mib : ℕ
  pub cpu_in_thousandths : ℕ

module _ (X : External) where
  pub data OperatorTask : Type 0 where
    table_func : Option Text → Text → List X.FunctionArg → ℕ → OperatorTask
    table : Option Text → Text → ℕ → OperatorTask
    filter : X.Expr → OperatorTask
    materialize_files : DataFormat → List (SelectItem X) → OperatorTask

  -- `producer task outbound_exchange_id inbound_exchange_ids` and
  -- `exchange task outbound_producer_ids inbound_producer_ids`.
  pub data OperatorType : Type 0 where
    producer : OperatorTask → Text → List Text → OperatorType
    exchange : OperatorTask → List Text → List Text → OperatorType

  pub record Operator : Type 0 where
    pub id : Text
    pub plan_id : ℕ
    pub operator_type : OperatorType
    pub compute : OperatorCompute

  pub record Pipeline : Type 0 where
    pub id : Text
    pub operators : List Operator

  pub record PhysicalPlan : Type 0 where
    pub pipelines : List Pipeline

-- A pipeline with the id but without the operator does not end the search.
abbrev pub or_else {ℓ} : {A : Type ℓ} → Option A → Option A → Option A
or_else (some a) rest = some a
or_else none rest = rest

module _ {X : External} where
  unfoldable pub task_name : OperatorTask X → Text
  task_name (table_func alias name args max_rows) = codes "TableFunc"
  task_name (table alias name max_rows) = codes "Table"
  task_name (filter expr) = codes "Filter"
  task_name (materialize_files format fields) = codes "MaterializeFiles"

  abbrev pub is_exchange : OperatorType X → Bool
  is_exchange (producer task out ins) = false
  is_exchange (exchange task outs ins) = true

  unfoldable pub new_pipeline : Text → Pipeline X
  new_pipeline id = record { id = id; operators = [] }

  unfoldable pub has_operators_for_plan_id : Pipeline X → ℕ → Bool
  has_operators_for_plan_id p plan_id = any (λ item. item.plan_id == plan_id) p.operators

  unfoldable pub get_exchange_operators_for_plan_id : Pipeline X → ℕ → List (Operator X)
  get_exchange_operators_for_plan_id p plan_id =
      select (λ op. op.plan_id == plan_id && is_exchange op.operator_type) p.operators

  unfoldable pub add_operator : Pipeline X → Operator X → Pipeline X
  add_operator p op = record p { operators = p.operators ++ (op ∷ []) }

  unfoldable pub add_operators : Pipeline X → List (Operator X) → Pipeline X
  unfolding add_operator
  add_operators p [] = p
  add_operators p (op ∷ ops) = add_operators (add_operator p op) ops

  unfoldable pub new_physical_plan : PhysicalPlan X
  new_physical_plan = record { pipelines = [] }

  unfoldable pub add_pipeline : PhysicalPlan X → Pipeline X → PhysicalPlan X
  add_pipeline p pipeline = record p { pipelines = p.pipelines ++ (pipeline ∷ []) }

  unfoldable pub search_pipelines : List (Pipeline X) → Text → Text → Option (Operator X)
  search_pipelines [] pipeline_id operator_id = none
  search_pipelines (p ∷ ps) pipeline_id operator_id =
      if text_eq p.id pipeline_id
      then or_else (find (λ op. text_eq op.id operator_id) p.operators)
          (search_pipelines ps pipeline_id operator_id)
      else search_pipelines ps pipeline_id operator_id

  unfoldable pub get_operator : PhysicalPlan X → Text → Text → Option (Operator X)
  unfolding search_pipelines
  get_operator p pipeline_id operator_id = search_pipelines p.pipelines pipeline_id operator_id
