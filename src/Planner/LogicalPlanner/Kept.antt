-- ===== src/Planner/LogicalPlanner/Kept.antt =====
-- A plan that was built is kept.
use chapterhouse_qe.Common.{
  ◌≡◌, ap, ◌∙◌, Option, none, some, List, Text, Outcome, ok, err, panic, Option-cases, inl, inr,
}
use chapterhouse_qe.External.{External}
use chapterhouse_qe.Planner.Sql.{Statement}
use chapterhouse_qe.Planner.Logical.{LogicalPlan, PlanError}
use chapterhouse_qe.Planner.LogicalPlanner.{
  LogicalPlanner, build, build_ast, build_plan, keep_plan, plan_ast,
}

module _ {X : External} where
  abbrev Holds : LogicalPlan X → LogicalPlanner X × Outcome PlanError (LogicalPlan X) → Type 0
  Holds plan r = r.1 ≡ ok plan → r.0.plan ≡ some plan

  keep_plan-Holds :
      (plan : LogicalPlan X) (planner : LogicalPlanner X) (r : Outcome PlanError (LogicalPlan X))
      → Holds plan (keep_plan (planner, r))
  keep_plan-Holds plan planner (ok p) = λ h. cc h
  keep_plan-Holds plan planner (err e) = λ h. absurd (cc h)
  keep_plan-Holds plan planner panic = λ h. absurd (cc h)

  plan_ast-Holds :
      (plan : LogicalPlan X) (planner : LogicalPlanner X) (r : Outcome PlanError (Statement X))
      → Holds plan (plan_ast planner r)
  plan_ast-Holds plan planner (ok ast) =
      let built = build_plan (record planner { ast = some ast }) (some ast) in
      keep_plan-Holds plan (built.0) (built.1)
  plan_ast-Holds plan planner (err e) = λ h. absurd (cc h)
  plan_ast-Holds plan planner panic = λ h. absurd (cc h)

  build-Holds :
      (parse_sql : Text → Option (List (Statement X))) (plan : LogicalPlan X)
      (planner : LogicalPlanner X)
      → Holds plan (build parse_sql planner)
  unfolding build
  build-Holds parse_sql plan planner = elim (Option-cases planner.plan) [
    | inl e ↦ rw (e, build) (plan_ast-Holds plan planner (build_ast parse_sql planner))
    | inr (kept, e) ↦ rw (e, build) (λ h. e ∙ cc h)
  ]

  build_again :
      (parse_sql : Text → Option (List (Statement X))) (plan : LogicalPlan X)
      (planner : LogicalPlanner X)
      → planner.plan ≡ some plan
      → build parse_sql planner ≡ (planner, ok plan)
  unfolding build
  build_again parse_sql plan planner e = ap built e
    where
      built : Option (LogicalPlan X) → LogicalPlanner X × Outcome PlanError (LogicalPlan X)
      built none = plan_ast planner (build_ast parse_sql planner)
      built (some kept) = (planner, ok kept)

  -- After a planner has returned a plan, it returns this plan, and does not change, whatever the parser
  -- would make of its text then.
  pub build-build :
      (parse_sql later : Text → Option (List (Statement X))) (plan : LogicalPlan X)
      (planner : LogicalPlanner X)
      → (build parse_sql planner).1 ≡ ok plan
      → build later (build parse_sql planner).0 ≡ ((build parse_sql planner).0, ok plan)
  build-build parse_sql later plan planner h =
      build_again later plan (build parse_sql planner).0 (build-Holds parse_sql plan planner h)
