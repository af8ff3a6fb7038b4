-- ===== src/Workers/Planned.antt =====
-- src/handlers/query_handler/query_handler.rs: what `handle_run_query` makes of a query's text, and what
-- the query handler takes from outside.
use chapterhouse_qe.Common.{ℕ, Option, none, some, List, Text, Outcome, ok, err, panic}
use chapterhouse_qe.External.{External}
use chapterhouse_qe.Planner.Sql.{Statement}
use chapterhouse_qe.Planner.LogicalPlanner
use chapterhouse_qe.Planner.Physical.Operators.{PhysicalPlan}
use chapterhouse_qe.Planner.Physical.Planner

-- What a call takes from outside: the ids of a new query and of its instances, and the time.
pub record Outside (X : External) : Type 0 where
  pub parse_sql : Text → Option (List (Statement X))
  pub fuel : ℕ
  pub query_id : ℕ → ℕ
  pub instance_id : ℕ → ℕ → ℕ
  pub now : ℕ → ℕ

-- What comes of the text of a query: a plan, no plan for an error of either planner, or neither.
pub data Planned (X : External) : Type 0 where
  plan : PhysicalPlan X → Planned X
  no_plan : Planned X
  planner_panics : Planned X
  planner_goes_on : Planned X

module _ {X : External} where
  abbrev of_physical : Option (Outcome Planner.PhysicalPlanError (PhysicalPlan X)) → Planned X
  of_physical none = planner_goes_on
  of_physical (some (ok physical_plan)) = plan physical_plan
  of_physical (some (err e)) = no_plan
  of_physical (some panic) = planner_panics

  unfoldable pub plan_query : Outside X → Text → Planned X
  unfolding LogicalPlanner.new LogicalPlanner.build Planner.new Planner.build
  plan_query out text = elim (LogicalPlanner.build out.parse_sql (LogicalPlanner.new text)).1 [
    | ok logical_plan ↦ of_physical (Planner.build out.fuel (Planner.new logical_plan)).1
    | err e ↦ no_plan
    | panic ↦ planner_panics
  ]
