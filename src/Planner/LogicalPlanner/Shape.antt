-- ===== src/Planner/LogicalPlanner/Shape.antt =====
-- The shape of the plan of a select query: its nodes in order, and its edges.
use chapterhouse_qe.Common.{ℕ, ◌≡◌, Option, List, length}
use chapterhouse_qe.Common.Map
use chapterhouse_qe.External.{External}
use chapterhouse_qe.Planner.Logical
use chapterhouse_qe.Planner.Logical.{
  Stage, StageType, table_source, filter_stage, materialize_stage, LogicalPlanNodeType, LogicalPlan,
  stage_eq, PlanError,
}
use chapterhouse_qe.Planner.Logical.Edges.{has_edge, IsMirrored}
use chapterhouse_qe.Planner.LogicalPlanner.{LogicalPlanner}
use chapterhouse_qe.Planner.LogicalPlanner.Indices.{plan_nodes, plan_edge}

module _ {X : External} where
  -- What the plan of a select query is, for the first stage id `i`.
  pub record HasShape (i : ℕ) (ts : List (LogicalPlanNodeType X))
      (f : Option (LogicalPlanNodeType X)) (m : LogicalPlanNodeType X) (p : LogicalPlan X)
      : Type 0 where
    pub mirrored : IsMirrored p
    pub nodes : p.nodes ≡ plan_nodes i ts f m
    pub edges : (a b : ℕ) → has_edge p.outbound_edges a b ≡ plan_edge (length ts) f a b
