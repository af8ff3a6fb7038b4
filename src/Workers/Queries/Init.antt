-- ===== src/Workers/Queries/Init.antt =====
-- The operator instances of a new query.
use chapterhouse_qe.Common.{
  ℕ, suc, ◌+◌, ◌≡◌, refl, ap, ap₂, ◌∙◌, List, [], ◌∷◌, ◌++◌, map, map-append, length, All,
  All-append, Text,
}
use chapterhouse_qe.External.{External}
use chapterhouse_qe.Planner.Physical.Operators.{Operator, Pipeline, PhysicalPlan}
use chapterhouse_qe.Workers.Queries.{
  OperatorInstance, queued, new_query, init, operator_instances_of, operator_instances_of_pipelines,
  new_operator_instance,
}

abbrev pub place : OperatorInstance → Text × Text
place op_in = (op_in.pipeline_id, op_in.operator_id)

module _ {X : External} where
  -- The pipeline and the operator of each operator of a plan.
  abbrev pub places : List (Pipeline X) → List (Text × Text)
  places [] = []
  places (p ∷ ps) = map (λ op. (p.id, op.id)) p.operators ++ places ps

  init_pipeline :
      (uuid : ℕ → ℕ) (k : ℕ) (id : Text) (ops : List (Operator X))
      → (map place (operator_instances_of uuid k id ops) ≡ map (λ op. (id, op.id)) ops)
        × All (λ o. o.status ≡ queued) (operator_instances_of uuid k id ops)
  unfolding operator_instances_of new_operator_instance
  init_pipeline uuid k id [] = (refl, tt)
  init_pipeline uuid k id (op ∷ ops) =
      let rest = init_pipeline uuid (suc k) id ops in
      (ap (λ t. (id, op.id) ∷ t) (rest.0), (refl, rest.1))

  init_pipelines :
      (uuid : ℕ → ℕ) (k : ℕ) (ps : List (Pipeline X))
      → (map place (operator_instances_of_pipelines uuid k ps) ≡ places ps)
        × All (λ o. o.status ≡ queued) (operator_instances_of_pipelines uuid k ps)
  unfolding operator_instances_of_pipelines
  init_pipelines uuid k [] = (refl, tt)
  init_pipelines uuid k (p ∷ ps) =
      let here = init_pipeline uuid k p.id p.operators in
      let rest = init_pipelines uuid (k + length p.operators) ps in
      (
        map-append place (operator_instances_of uuid k p.id p.operators)
              (operator_instances_of_pipelines uuid (k + length p.operators) ps)
            ∙ ap₂ (λ xs ys. xs ++ ys) (here.0) (rest.0),
        All-append (λ o. o.status ≡ queued) (operator_instances_of uuid k p.id p.operators)
            (operator_instances_of_pipelines uuid (k + length p.operators) ps) (here.1) (rest.1),
      )

  -- A new query, initialised, has one instance for every operator of every pipeline of its plan, in the
  -- plan's order, and every one is queued.
  pub init-places :
      (uuid : ℕ → ℕ) (id : ℕ) (text : Text) (plan : PhysicalPlan X)
      → (map place (init uuid (new_query id text plan)).operator_instances ≡ places plan.pipelines)
        × All (λ o. o.status ≡ queued) (init uuid (new_query id text plan)).operator_instances
  unfolding init new_query
  init-places uuid id text plan = init_pipelines uuid 0 plan.pipelines
