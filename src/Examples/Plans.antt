-- ===== src/Examples/Plans.antt =====
-- src/planner: a query over one table function, with a filter.
use chapterhouse_qe.Common.{
  true, ◌↔◌, ◌⊎◌, ℕ, zero, suc, ◌≡◌, refl, true, false, Option, none, some, inl, inr, List, [], ◌∷◌,
  map, Text, codes, decimal, decimal_digits, text_eq, Outcome, ok, err, panic,
}
use chapterhouse_qe.Common.Map
use chapterhouse_qe.Planner.Sql
use chapterhouse_qe.Planner.Sql.{Statement, query, Select, SelectItem, select}
use chapterhouse_qe.Planner.Logical.{
  LogicalPlan, LogicalPlanNode, LogicalPlanNodeType, Stage, table_source, materialize_stage,
  connect_stages, connect_all, connect_to_all, connect, stage_idxs, add_to_outbound_edges,
  add_to_inbound_edges, add_to_edges, get_node, get_inbound_nodes, get_outbound_nodes,
}
use chapterhouse_qe.Planner.Logical
use chapterhouse_qe.Planner.Logical.Stages.{InStage}
use chapterhouse_qe.Planner.Logical.Edges.{
  has_edge, IsMirrored, connect_stages-IsMirrored, connect_stages_edges,
}
use chapterhouse_qe.Planner.LogicalPlanner.{
  build_select_from, build_select_from_relation, table_relation_plan_node, build_select_query_plan,
}
use chapterhouse_qe.Planner.LogicalPlanner
use chapterhouse_qe.Planner.LogicalPlanner.{LogicalPlanner}
use chapterhouse_qe.Planner.LogicalPlanner.Kept.{build-build}
use chapterhouse_qe.Planner.Physical.Operators
use chapterhouse_qe.Planner.Physical.Operators.{
  Operator, Pipeline, PhysicalPlan, new_pipeline, add_operator, add_operators,
  has_operators_for_plan_id,
}
use chapterhouse_qe.Planner.Physical.Planner.{
  build_loop, round, count_with_operators, build_node, build_operators, build_table_func_operators,
  build_filter_operators, build_materialize_operators, operator_pair, get_outbound_operators,
  get_inbound_operators, new_operator_id, producer_name, exchange_name,
}
use chapterhouse_qe.Planner.Physical.Planner
use chapterhouse_qe.Planner.Physical.Ids.{new_operator_id_injective}
use chapterhouse_qe.Planner.Physical.Single.{over_one_table, plan_ids, node_ids, single_table-build}
use chapterhouse_qe.Planner.Physical.Wiring.{
  serves, TakesOnlyFrom, build_loop-serves_readers, build_loop-takes_from_writer,
}
use chapterhouse_qe.Examples.Demo.{demo}

abbrev one_table : Select demo
one_table = record {
  projection = Sql.unnamed_expr 4 ∷ [];
  sources =
      record { relation = Sql.table (codes "read_files" ∷ []) none (some (9 ∷ [])); joins = [] }
      ∷ [];
  selection = some 5;
}

abbrev tables : List (LogicalPlanNodeType demo)
tables = Logical.table_func none (codes "read_files") (9 ∷ []) ∷ []

abbrev source_stage : Stage
source_stage = record { id = 0; typ = table_source; is_root = false }

abbrev root_stage : Stage
root_stage = record { id = 2; typ = materialize_stage; is_root = true }

abbrev unconnected : LogicalPlan demo
unconnected = record {
  nodes =
      record {
        id = 0;
        node = Logical.table_func none (codes "read_files") (9 ∷ []);
        stage = source_stage;
      }
      ∷ record { id = 1; node = Logical.materialize []; stage = root_stage }
      ∷ [];
  outbound_edges = [];
  inbound_edges = [];
}

unconnected-IsMirrored : IsMirrored unconnected
unfolding has_edge Map.get
unconnected-IsMirrored = record { converse = λ a b. refl; inbound_nonempty = λ a. refl }

connect_stages-IsMirrored_example : IsMirrored (connect_stages unconnected source_stage root_stage)
connect_stages-IsMirrored_example =
    connect_stages-IsMirrored unconnected source_stage root_stage unconnected-IsMirrored

connect_stages_edges_example :
    (has_edge (connect_stages unconnected source_stage root_stage).outbound_edges 0 1 ≡ true) ↔ (
      (has_edge unconnected.outbound_edges 0 1 ≡ true)
      ⊎ (InStage source_stage 0 unconnected.nodes × InStage root_stage 1 unconnected.nodes))
connect_stages_edges_example = connect_stages_edges unconnected source_stage root_stage 0 1

unfoldable connected : LogicalPlan demo
connected = connect_stages unconnected source_stage root_stage

connected-IsMirrored : IsMirrored connected
unfolding connected
connected-IsMirrored =
    connect_stages-IsMirrored unconnected source_stage root_stage unconnected-IsMirrored

abbrev or_none : Option (Outcome Planner.PhysicalPlanError (Pipeline demo)) → Pipeline demo
or_none (some (ok p)) = p
or_none (some (err e)) = record { id = []; operators = [] }
or_none (some panic) = record { id = []; operators = [] }
or_none none = record { id = []; operators = [] }

unfoldable built : Pipeline demo
built = or_none (build_loop 20 connected 10 0 (1 ∷ []) (new_pipeline (codes "pipeline_0")))

abbrev at : ℕ → List (Operator demo) → Operator demo → Operator demo
at n [] op = op
at zero (op ∷ ops) other = op
at (suc n) (op ∷ ops) other = at n ops op

built_ids :
    map (λ op. op.id) built.operators
    ≡ codes "operator_p0_producer"
      ∷ codes "operator_p0_exchange"
      ∷ codes "operator_p1_producer"
      ∷ codes "operator_p1_exchange"
      ∷ []
unfolding built connected connect_stages connect_all connect_to_all connect stage_idxs
    add_to_outbound_edges add_to_inbound_edges add_to_edges get_node get_inbound_nodes
    get_outbound_nodes Map.get Map.insert build_loop round count_with_operators build_node
    build_operators build_table_func_operators build_filter_operators build_materialize_operators
    operator_pair get_outbound_operators get_inbound_operators new_operator_id new_pipeline
    add_operator add_operators has_operators_for_plan_id decimal decimal_digits text_eq
built_ids = refl

abbrev operator : ℕ → Operator demo
operator n = at n built.operators (record {
  id = [];
  plan_id = 0;
  operator_type = Operators.producer (Operators.table none [] 0) [] [];
  compute = record { instances = 0; memory_in_mib = 0; cpu_in_thousandths = 0 };
})

build_loop-serves_readers_example : serves (operator 2).id (operator 1).operator_type ≡ true
unfolding built connected connect_stages connect_all connect_to_all connect stage_idxs
    add_to_outbound_edges add_to_inbound_edges add_to_edges get_node get_inbound_nodes
    get_outbound_nodes Map.get Map.insert build_loop round count_with_operators build_node
    build_operators build_table_func_operators build_filter_operators build_materialize_operators
    operator_pair get_outbound_operators get_inbound_operators new_operator_id new_pipeline
    add_operator add_operators has_operators_for_plan_id decimal decimal_digits text_eq
build_loop-serves_readers_example =
    build_loop-serves_readers 20 connected 10 (1 ∷ []) (codes "pipeline_0") built (operator 2)
      (operator 1) connected-IsMirrored refl (inr (inr (inl refl))) (inr (inl refl)) refl

build_loop-takes_from_writer_example : TakesOnlyFrom (operator 0).id (operator 1).operator_type
unfolding built connected connect_stages connect_all connect_to_all connect stage_idxs
    add_to_outbound_edges add_to_inbound_edges add_to_edges get_node get_inbound_nodes
    get_outbound_nodes Map.get Map.insert build_loop round count_with_operators build_node
    build_operators build_table_func_operators build_filter_operators build_materialize_operators
    operator_pair get_outbound_operators get_inbound_operators new_operator_id new_pipeline
    add_operator add_operators has_operators_for_plan_id decimal decimal_digits text_eq
build_loop-takes_from_writer_example =
    build_loop-takes_from_writer 20 connected 10 (1 ∷ []) (codes "pipeline_0") built (operator 0)
      (operator 1) refl (inl refl) (inr (inl refl)) refl

new_operator_id_injective_example : (◌≡◌ {A = ℕ} 7 7) × (producer_name ≡ producer_name)
new_operator_id_injective_example = new_operator_id_injective 7 7 producer_name producer_name refl

abbrev parsed : Text → Option (List (Statement demo))
parsed text = some (query (select one_table) ∷ [])

abbrev unparsed : Text → Option (List (Statement demo))
unparsed text = none

abbrev planner : LogicalPlanner demo
planner = LogicalPlanner.new (codes "select")

abbrev or_empty : Outcome Logical.PlanError (LogicalPlan demo) → LogicalPlan demo
or_empty (ok plan) = plan
or_empty (err e) = unconnected
or_empty panic = unconnected

build-build_example : LogicalPlanner.build unparsed (LogicalPlanner.build parsed planner).0 ≡ (
  (LogicalPlanner.build parsed planner).0,
  ok (or_empty (LogicalPlanner.build parsed planner).1),
)
unfolding LogicalPlanner.build LogicalPlanner.new LogicalPlanner.build_ast LogicalPlanner.build_plan
    build_select_query_plan build_select_from build_select_from_relation table_relation_plan_node
build-build_example =
    build-build parsed unparsed (or_empty (LogicalPlanner.build parsed planner).1) planner refl

single_table-build_example :
    (p : LogicalPlan demo) × ((build_select_query_plan planner (
        select
          (over_one_table (Sql.unnamed_expr 4 ∷ []) (codes "read_files") none (9 ∷ []) (some 5)))).1
      ≡ ok p)
    × (physical : PhysicalPlan demo) × ((Planner.build 8 (Planner.new p)).1 ≡ some (ok physical))
    × (plan_ids physical.pipelines ≡ node_ids {A = ℕ} (some 5))
single_table-build_example =
    single_table-build (codes "select") (Sql.unnamed_expr 4 ∷ []) (codes "read_files") none (9 ∷ [])
      (some 5)
