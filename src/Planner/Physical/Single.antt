-- ===== src/Planner/Physical/Single.antt =====
-- A query over one table function, through both planners.
use chapterhouse_qe.Common.{ℕ, ◌≡◌, refl, Option, none, some, List, [], ◌∷◌, ◌++◌, map, Text, ok}
use chapterhouse_qe.Common.Map
use chapterhouse_qe.External.{External}
use chapterhouse_qe.Planner.Sql
use chapterhouse_qe.Planner.Sql.{Select, SelectItem, select}
use chapterhouse_qe.Planner.Logical.{
  LogicalPlan, connect_stages, connect_all, connect_to_all, connect, stage_idxs, add_node,
  add_to_outbound_edges, add_to_inbound_edges, add_to_edges, get_root_node, get_node,
  get_inbound_nodes, get_outbound_nodes,
}
use chapterhouse_qe.Planner.Logical
use chapterhouse_qe.Planner.LogicalPlanner.{
  build_select_query_plan, build_select_from, build_select_from_relation, table_relation_plan_node,
  build_select_filter, build_materialization, add_nodes, filter_and_materialize,
}
use chapterhouse_qe.Planner.LogicalPlanner
use chapterhouse_qe.Planner.Physical.Operators.{
  Pipeline, PhysicalPlan, new_pipeline, new_physical_plan, add_pipeline, add_operator,
  add_operators, has_operators_for_plan_id,
}
use chapterhouse_qe.Planner.Physical.Planner.{
  build, build_loop, round, count_with_operators, build_node, build_operators,
  build_table_func_operators, build_filter_operators, build_materialize_operators, operator_pair,
  new_pipeline_id,
}
use chapterhouse_qe.Planner.Physical.Planner

abbrev pub node_ids : {A : Type 0} → Option A → List ℕ
node_ids none = 0 ∷ 0 ∷ 1 ∷ 1 ∷ []
node_ids (some expr) = 0 ∷ 0 ∷ 1 ∷ 1 ∷ 2 ∷ 2 ∷ []

module _ {X : External} where
  abbrev pub over_one_table :
      List (SelectItem X) → Text → Option Text → List X.FunctionArg → Option X.Expr → Select X
  over_one_table projection name alias args selection = record {
    projection = projection;
    sources = record { relation = Sql.table (name ∷ []) alias (some args); joins = [] } ∷ [];
    selection = selection;
  }

  -- The nodes that the operators of all pipelines come from.
  abbrev pub plan_ids : List (Pipeline X) → List ℕ
  plan_ids [] = []
  plan_ids (p ∷ ps) = map (λ op. op.plan_id) p.operators ++ plan_ids ps

  -- Both planners accept every select query over one table function, with a filter or without: within
  -- eight rounds of its loop the physical planner returns a plan, of two operators for each node of the
  -- logical plan, every node after those that it reads from.
  pub single_table-build :
      (text : Text) (projection : List (SelectItem X)) (name : Text) (alias : Option Text)
      (args : List X.FunctionArg) (selection : Option X.Expr)
      → (p : LogicalPlan X) × ((build_select_query_plan
            (LogicalPlanner.new text)
            (select (over_one_table projection name alias args selection))).1
          ≡ ok p)
        × (physical : PhysicalPlan X) × ((build 8 (Planner.new p)).1 ≡ some (ok physical))
        × (plan_ids physical.pipelines ≡ node_ids selection)
  unfolding build_select_query_plan build_select_from build_select_from_relation
      table_relation_plan_node build_select_filter build_materialization add_nodes
      filter_and_materialize LogicalPlanner.new Logical.new connect_stages connect_all
      connect_to_all connect stage_idxs add_node add_to_outbound_edges add_to_inbound_edges
      add_to_edges get_root_node get_node get_inbound_nodes Map.get Map.insert Planner.new build
      build_loop round count_with_operators build_node build_operators build_table_func_operators
      build_filter_operators build_materialize_operators operator_pair new_pipeline_id new_pipeline
      new_physical_plan add_pipeline add_operator add_operators has_operators_for_plan_id
  single_table-build text projection name alias args none = (_, refl, _, refl, refl)
  single_table-build text projection name alias args (some expr) = (_, refl, _, refl, refl)
