-- ===== src/Planner/Physical/Made.antt =====
-- How the physical planner makes the operators of a pipeline.
use chapterhouse_qe.Common.{
  ℕ, zero, suc, ◌+◌, ◌≡◌, refl, sym, ◌∙◌, subst, Option, none, some, List, [], ◌∷◌, ◌++◌, map, inl,
  inr, ◌⊎◌, ltb, All, All-append, Text, Bool-cases, Option-cases, Outcome, ◌>>=◌, ok, err, panic,
  append_assoc, append-nil,
}
use mathlib.Core.List.{reverse}
use chapterhouse_qe.External.{External}
use chapterhouse_qe.Planner.Logical.{
  LogicalPlan, LogicalPlanNode, LogicalPlanNodeType, get_node, get_inbound_nodes,
  get_outbound_nodes,
}
use chapterhouse_qe.Planner.Logical
use chapterhouse_qe.Planner.Physical.Operators
use chapterhouse_qe.Planner.Physical.Operators.{
  parquet, Operator, OperatorType, OperatorTask, Pipeline, producer, exchange, add_operator,
  add_operators, new_pipeline,
}
use chapterhouse_qe.Planner.Physical.Planner.{
  new_operator_id, or_empty, producer_name, exchange_name, get_outbound_operators,
  get_inbound_operators, operator_pair, build_operators, build_table_func_operators,
  build_filter_operators, build_materialize_operators, build_node, build_loop, round, skip, descend,
  build_it, fail, Round, PhysicalPlanError, expected_all_inbound_nodes_to_have_operators_already,
}

-- The ids that one kind of operator has at the other ends of a node's edges.
abbrev pub names : List ℕ → Text → List Text
names ids kind = map (λ id. new_operator_id id kind) ids

-- A successful result has a property.
abbrev Returns : {A : Type 0} → (A → Type 0) → Outcome PhysicalPlanError A → Type 0
Returns P (ok a) = P a
Returns P (err e) = Unit {0}
Returns P panic = Unit {0}

module _ {X : External} where
  -- How the planner makes the operator of a node.
  abbrev pub IsMadeAs : LogicalPlan X → Text → ℕ → OperatorType X → Type 0
  IsMadeAs plan id n (producer task out ins) =
      (id ≡ new_operator_id n producer_name)
      × (out ≡ new_operator_id n exchange_name)
      × ((ins ≡ []) ⊎ (ins ≡ names (or_empty (get_inbound_nodes plan n)) exchange_name))
  IsMadeAs plan id n (exchange task outs ins) =
      (id ≡ new_operator_id n exchange_name)
      × (outs ≡ names (or_empty (get_outbound_nodes plan n)) producer_name)
      × (ins ≡ new_operator_id n producer_name ∷ [])

  abbrev pub IsMade : LogicalPlan X → Operator X → Type 0
  IsMade plan op = IsMadeAs plan op.id op.plan_id op.operator_type

  operator_pair-IsMade :
      (plan : LogicalPlan X) (lpn : LogicalPlanNode X) (task : OperatorTask X) (ins : List Text)
      → (ins ≡ []) ⊎ (ins ≡ names (or_empty (get_inbound_nodes plan lpn.id)) exchange_name)
      → All (IsMade plan) (operator_pair plan lpn task ins)
  unfolding operator_pair get_outbound_operators
  operator_pair-IsMade plan lpn task ins h = ((refl, refl, h), ((refl, refl, refl), tt))

  build_operators_of :
      (plan : LogicalPlan X) (lpn : LogicalPlanNode X) (node : LogicalPlanNodeType X)
      → lpn.node ≡ node
      → Returns (All (IsMade plan)) (build_operators plan lpn)
  unfolding build_operators build_table_func_operators build_filter_operators
      build_materialize_operators get_inbound_operators
  build_operators_of plan lpn (Logical.table_func alias name args) e =
      rw (e, build_operators)
        (rw (e, build_table_func_operators)
          (operator_pair-IsMade plan lpn (Operators.table_func alias name args 10_000) []
            (inl refl)))
  build_operators_of plan lpn (Logical.filter expr) e =
      rw (e, build_operators)
        (rw (e, build_filter_operators)
          (operator_pair-IsMade plan lpn (Operators.filter expr)
            (names (or_empty (get_inbound_nodes plan lpn.id)) exchange_name) (inr refl)))
  build_operators_of plan lpn (Logical.materialize fields) e =
      rw (e, build_operators)
        (rw (e, build_materialize_operators)
          (operator_pair-IsMade plan lpn (Operators.materialize_files parquet fields)
            (names (or_empty (get_inbound_nodes plan lpn.id)) exchange_name) (inr refl)))
  build_operators_of plan lpn (Logical.table alias name) e = rw (e, build_operators) tt

  add_operators-append :
      (p : Pipeline X) (ops : List (Operator X))
      → (add_operators p ops).operators ≡ p.operators ++ ops
  unfolding add_operators add_operator
  add_operators-append p [] = sym (append-nil p.operators)
  add_operators-append p (op ∷ ops) =
      add_operators-append (add_operator p op) ops ∙ append_assoc p.operators (op ∷ []) ops

  abbrev AllMade : LogicalPlan X → Pipeline X → Type 0
  AllMade plan p = All (IsMade plan) p.operators

  add_made :
      (plan : LogicalPlan X) (p : Pipeline X) (r : Outcome PhysicalPlanError (List (Operator X)))
      → AllMade plan p
      → Returns (All (IsMade plan)) r
      → Returns (AllMade plan) (r >>= λ ops. ok (add_operators p ops))
  add_made plan p (ok ops) h k =
      subst (All (IsMade plan)) (sym (add_operators-append p ops))
        (All-append (IsMade plan) p.operators ops h k)
  add_made plan p (err e) h k = tt
  add_made plan p panic h k = tt

  build_node-AllMade :
      (plan : LogicalPlan X) (p : Pipeline X) (id : ℕ)
      → AllMade plan p
      → Returns (AllMade plan) (build_node plan p id)
  unfolding build_node
  build_node-AllMade plan p id h = elim (Option-cases (get_node plan id)) [
    | inl e ↦ rw (e, build_node) h
    | inr (lpn, e) ↦
        rw (e, build_node)
          (add_made plan p (build_operators plan lpn) h (build_operators_of plan lpn lpn.node refl))
  ]

  -- What the loop returns if it ends well.
  abbrev Ends : LogicalPlan X → Option (Outcome PhysicalPlanError (Pipeline X)) → Type 0
  Ends plan none = Unit {0}
  Ends plan (some r) = Returns (AllMade plan) r

  loop-AllMade :
      (fuel : ℕ) (plan : LogicalPlan X) (most iters : ℕ) (stack : List ℕ) (p : Pipeline X)
      → AllMade plan p
      → Ends plan (build_loop fuel plan most iters stack p)
  unfolding build_loop
  loop-AllMade zero plan most iters [] p h = h
  loop-AllMade (suc fuel) plan most iters [] p h = h
  loop-AllMade zero plan most iters (id ∷ stack) p h = tt
  loop-AllMade (suc fuel) plan most iters (id ∷ stack) p h = elim (Bool-cases (ltb most iters)) [
    | inl e ↦ rw (e, build_loop) tt
    | inr e ↦
        rw (e, build_loop)
          (by_round (round plan p id) (build_node plan p id) (build_node-AllMade plan p id h)
            (loop-AllMade fuel plan most iters stack p h)
            (λ inbound. loop-AllMade fuel plan most iters (reverse inbound ++ (id ∷ stack)) p h)
            (λ p' h'. loop-AllMade fuel plan most (iters + 1) stack p' h'))
  ]
    where
      by_round :
          (r : Round) (built : Outcome PhysicalPlanError (Pipeline X))
          → Returns (AllMade plan) built
          → Ends plan (build_loop fuel plan most iters stack p)
          → ((inbound : List ℕ)
              → Ends plan (build_loop fuel plan most iters (reverse inbound ++ (id ∷ stack)) p))
          → ((p' : Pipeline X)
              → AllMade plan p'
              → Ends plan (build_loop fuel plan most (iters + 1) stack p'))
          → Ends plan (elim r [
            | skip ↦ build_loop fuel plan most iters stack p
            | descend inbound ↦ build_loop fuel plan most iters (reverse inbound ++ (id ∷ stack)) p
            | build_it ↦ elim built [
              | ok p' ↦ build_loop fuel plan most (iters + 1) stack p'
              | err e ↦ some (err e)
              | panic ↦ some panic
            ]
            | fail ↦ some (err expected_all_inbound_nodes_to_have_operators_already)
          ])
      by_round skip built b s d n = s
      by_round (descend inbound) built b s d n = d inbound
      by_round build_it (ok p') b s d n = n p' b
      by_round build_it (err e) b s d n = tt
      by_round build_it panic b s d n = tt
      by_round fail built b s d n = tt

  -- Every operator of a pipeline that the planner returns is made from its node, whatever the fuel.
  pub build_loop-IsMade :
      (fuel : ℕ) (plan : LogicalPlan X) (most : ℕ) (stack : List ℕ) (name : Text) (p : Pipeline X)
      → build_loop fuel plan most 0 stack (new_pipeline name) ≡ some (ok p)
      → All (IsMade plan) p.operators
  build_loop-IsMade fuel plan most stack name p e =
      subst (Ends plan) e
        (loop-AllMade fuel plan most 0 stack (new_pipeline name) (unfold new_pipeline in tt))
