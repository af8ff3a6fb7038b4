-- ===== src/Planner/Physical/Planner.antt =====
-- src/planner/physical_planner.rs, `PhysicalPlanner`. The head of a list of node ids that stands for
-- `node_id_stack` is the end of the vector. The loop takes fuel; `none` means that it ran out.
use chapterhouse_qe.Common.{
  ℕ, zero, suc, ◌+◌, Option, none, some, List, [], ◌∷◌, ◌++◌, map, ltb, true, false, ◌==◌,
  if◌then◌else◌, length, Text, codes, decimal, Outcome, ok, err, panic, ◌>>=◌,
}
use mathlib.Core.List.{reverse}
use chapterhouse_qe.External.{External}
use chapterhouse_qe.Planner.Logical.{
  LogicalPlan, LogicalPlanNode, LogicalPlanNodeType, get_root_node, get_node, get_inbound_nodes,
  get_outbound_nodes,
}
use chapterhouse_qe.Planner.Logical
use chapterhouse_qe.Planner.Physical.Operators.{
  OperatorTask, Operator, OperatorCompute, OperatorType, Pipeline, PhysicalPlan, parquet, producer,
  exchange, new_pipeline, has_operators_for_plan_id, add_operators, new_physical_plan, add_pipeline,
}
use chapterhouse_qe.Planner.Physical.Operators

pub data PhysicalPlanError : Type 0 where
  unable_to_find_root_node_in_logical_plan : PhysicalPlanError
  unable_to_build_operator_for_logical_plan_node_type : Text → Text → PhysicalPlanError
  max_build_iterations_reached : ℕ → PhysicalPlanError
  expected_all_inbound_nodes_to_have_operators_already : PhysicalPlanError
  not_implemented : PhysicalPlanError

pub record PhysicalPlanner (X : External) : Type 0 where
  pub logical_plan : LogicalPlan X
  pub pipeline_idx : ℕ
  pub operator_idx : ℕ
  pub max_build_iterations : ℕ

-- `format!("operator_p{}_{}", ..)`.
unfoldable pub new_operator_id : ℕ → Text → Text
new_operator_id plan_node_id task_type_name =
    codes "operator_p" ++ (decimal plan_node_id ++ (codes "_" ++ task_type_name))

abbrev pub or_empty : Option (List ℕ) → List ℕ
or_empty none = []
or_empty (some ids) = ids

abbrev pub producer_name : Text
producer_name = codes "producer"

abbrev pub exchange_name : Text
exchange_name = codes "exchange"

abbrev pub producer_compute : OperatorCompute
producer_compute = record { instances = 1; memory_in_mib = 512; cpu_in_thousandths = 1000 }

abbrev pub exchange_compute : OperatorCompute
exchange_compute = record { instances = 1; memory_in_mib = 128; cpu_in_thousandths = 200 }

-- What one round does with the id on top: leave it, put its inbound nodes above it, or build it.
pub data Round : Type 0 where
  skip : Round
  descend : List ℕ → Round
  build_it : Round
  fail : Round

module _ {X : External} where
  unfoldable pub new : LogicalPlan X → PhysicalPlanner X
  new plan = record {
    logical_plan = plan;
    pipeline_idx = 0;
    operator_idx = 0;
    max_build_iterations = 10;
  }

  unfoldable pub new_pipeline_id : PhysicalPlanner X → PhysicalPlanner X × Text
  new_pipeline_id p =
      (record p { pipeline_idx = p.pipeline_idx + 1 }, codes "pipeline_" ++ decimal p.pipeline_idx)

  unfoldable pub get_outbound_operators : LogicalPlan X → LogicalPlanNode X → Text → List Text
  unfolding get_outbound_nodes
  get_outbound_operators plan lpn task_type_name =
      map (λ id. new_operator_id id task_type_name) (or_empty (get_outbound_nodes plan lpn.id))

  unfoldable pub get_inbound_operators : LogicalPlan X → LogicalPlanNode X → Text → List Text
  unfolding get_inbound_nodes
  get_inbound_operators plan lpn task_type_name =
      map (λ id. new_operator_id id task_type_name) (or_empty (get_inbound_nodes plan lpn.id))

  -- The two operators of a node: the three builders differ in the task and in the exchanges that the
  -- producer reads from.
  unfoldable pub operator_pair :
      LogicalPlan X → LogicalPlanNode X → OperatorTask X → List Text → List (Operator X)
  unfolding get_outbound_operators
  operator_pair plan lpn op_task inbound_exchange_ids =
      let producer_id = new_operator_id lpn.id producer_name in
      record {
        id = producer_id;
        plan_id = lpn.id;
        operator_type =
            producer op_task (new_operator_id lpn.id exchange_name) inbound_exchange_ids;
        compute = producer_compute;
      }
      ∷ record {
        id = new_operator_id lpn.id exchange_name;
        plan_id = lpn.id;
        operator_type =
            exchange op_task (get_outbound_operators plan lpn producer_name) (producer_id ∷ []);
        compute = exchange_compute;
      }
      ∷ []

  unfoldable pub build_table_func_operators :
      LogicalPlan X → LogicalPlanNode X → Outcome PhysicalPlanError (List (Operator X))
  unfolding operator_pair
  build_table_func_operators plan lpn = elim lpn.node [
    | Logical.table_func alias name args ↦
        ok (operator_pair plan lpn (Operators.table_func alias name args 10_000) [])
    | _ ↦
        err (unable_to_build_operator_for_logical_plan_node_type (codes "filter") (codes "filter"))
  ]

  unfoldable pub build_filter_operators :
      LogicalPlan X → LogicalPlanNode X → Outcome PhysicalPlanError (List (Operator X))
  unfolding operator_pair get_inbound_operators
  build_filter_operators plan lpn = elim lpn.node [
    | Logical.filter expr ↦ ok (
        operator_pair plan lpn (Operators.filter expr)
          (get_inbound_operators plan lpn exchange_name))
    | _ ↦
        err (unable_to_build_operator_for_logical_plan_node_type (codes "filter") (codes "filter"))
  ]

  unfoldable pub build_materialize_operators :
      LogicalPlan X → LogicalPlanNode X → Outcome PhysicalPlanError (List (Operator X))
  unfolding operator_pair get_inbound_operators
  build_materialize_operators plan lpn = elim lpn.node [
    | Logical.materialize fields ↦ ok (
        operator_pair plan lpn (Operators.materialize_files parquet fields)
          (get_inbound_operators plan lpn exchange_name))
    | _ ↦ err (
        unable_to_build_operator_for_logical_plan_node_type (codes "materialize")
          (codes "materialize"))
  ]

  unfoldable pub build_operators :
      LogicalPlan X → LogicalPlanNode X → Outcome PhysicalPlanError (List (Operator X))
  unfolding build_table_func_operators build_filter_operators build_materialize_operators
  build_operators plan lpn = elim lpn.node [
    | Logical.materialize fields ↦ build_materialize_operators plan lpn
    | Logical.filter expr ↦ build_filter_operators plan lpn
    | Logical.table_func alias name args ↦ build_table_func_operators plan lpn
    | Logical.table alias name ↦ err not_implemented
  ]

  -- How many of the nodes have operators in the pipeline.
  unfoldable pub count_with_operators : Pipeline X → List ℕ → ℕ
  unfolding has_operators_for_plan_id
  count_with_operators p [] = 0
  count_with_operators p (id ∷ ids) =
      if has_operators_for_plan_id p id
      then count_with_operators p ids + 1
      else count_with_operators p ids

  -- A node's own operators join the pipeline; an id without a node adds nothing.
  unfoldable pub build_node :
      LogicalPlan X → Pipeline X → ℕ → Outcome PhysicalPlanError (Pipeline X)
  unfolding build_operators add_operators get_node
  build_node plan pipeline id = elim (get_node plan id) [
    | none ↦ ok pipeline
    | some lpn ↦ do ops ← build_operators plan lpn; ok (add_operators pipeline ops)
  ]

  unfoldable pub round : LogicalPlan X → Pipeline X → ℕ → Round
  unfolding has_operators_for_plan_id count_with_operators get_inbound_nodes
  round plan pipeline id =
      if has_operators_for_plan_id pipeline id then skip else elim (get_inbound_nodes plan id) [
        | none ↦ build_it
        | some inbound ↦
            let n = count_with_operators pipeline inbound in
            if n == 0 then descend inbound else if n == length inbound then build_it else fail
      ]

  unfoldable pub build_loop :
      ℕ
      → LogicalPlan X
      → ℕ
      → ℕ
      → List ℕ
      → Pipeline X
      → Option (Outcome PhysicalPlanError (Pipeline X))
  unfolding round build_node
  build_loop fuel plan max_iterations iters [] pipeline = some (ok pipeline)
  build_loop zero plan max_iterations iters (id ∷ stack) pipeline = none
  build_loop (suc fuel) plan max_iterations iters (id ∷ stack) pipeline =
      elim (ltb max_iterations iters) [
        | true ↦ some (err (max_build_iterations_reached max_iterations))
        | false ↦ elim (round plan pipeline id) [
          | skip ↦ build_loop fuel plan max_iterations iters stack pipeline
          | descend inbound ↦
              build_loop fuel plan max_iterations iters (reverse inbound ++ (id ∷ stack)) pipeline
          | build_it ↦ elim (build_node plan pipeline id) [
            | ok pipeline' ↦ build_loop fuel plan max_iterations (iters + 1) stack pipeline'
            | err e ↦ some (err e)
            | panic ↦ some panic
          ]
          | fail ↦ some (err expected_all_inbound_nodes_to_have_operators_already)
        ]
      ]

  abbrev pub one_pipeline :
      Option (Outcome PhysicalPlanError (Pipeline X))
      → Option (Outcome PhysicalPlanError (PhysicalPlan X))
  one_pipeline none = none
  one_pipeline (some r) = some (do pipeline ← r; ok (add_pipeline new_physical_plan pipeline))

  unfoldable pub build :
      ℕ
      → PhysicalPlanner X
      → PhysicalPlanner X × Option (Outcome PhysicalPlanError (PhysicalPlan X))
  unfolding build_loop new_pipeline_id get_root_node
  build fuel p = elim (get_root_node p.logical_plan) [
    | none ↦ (p, some (err unable_to_find_root_node_in_logical_plan))
    | some root ↦ (
      (new_pipeline_id p).0,
      one_pipeline (
          build_loop fuel p.logical_plan p.max_build_iterations 0 (root.id ∷ [])
            (new_pipeline (new_pipeline_id p).1)),
    )
  ]
