-- ===== src/Planner/LogicalPlanner.antt =====
-- src/planner/logical_planner.rs, `LogicalPlanner`. `Parser::parse_sql` is an argument of `build`; its
-- error is `none`.
pub mod Indices
pub mod Shape
pub mod Kept
use chapterhouse_qe.Common.{
  ℕ, suc, ◌+◌, Bool, true, false, Option, none, some, List, [], ◌∷◌, ◌++◌, ◌==◌, ◌&&◌,
  if◌then◌else◌, length, select as keep, Text, codes, decimal, Outcome, ok, err, panic, ◌>>=◌,
}
use chapterhouse_qe.External.{External}
use chapterhouse_qe.Planner.Sql.{
  SelectItem, unnamed_expr, expr_with_alias, qualified_wildcard, wildcard, WildcardOptions,
  TableFactor, TableWithJoins, other_factor, Select, SetExpr, select, other_set, Statement, query,
  other_statement,
}
use chapterhouse_qe.Planner.Logical.{
  PlanError, not_implemented, number_of_statements_not_equal_to_one, parser_error, Stage,
  table_source, filter_stage, materialize_stage, LogicalPlanNodeType, LogicalPlan, add_node,
  connect_stages,
}
use chapterhouse_qe.Planner.Logical
use chapterhouse_qe.Planner.Sql

pub record LogicalPlanner (X : External) : Type 0 where
  pub query_text : Text
  pub ast : Option (Statement X)
  pub plan : Option (LogicalPlan X)
  pub stage_idx : ℕ

abbrev pub is_none {ℓ} : {A : Type ℓ} → Option A → Bool
is_none none = true
is_none (some a) = false

-- `Vec::last`.
abbrev pub last? {ℓ} : {A : Type ℓ} → List A → Option A
last? [] = none
last? (x ∷ []) = some x
last? (x ∷ y ∷ xs) = last? (y ∷ xs)

module _ {X : External} where
  unfoldable pub new : Text → LogicalPlanner X
  new text = record { query_text = text; ast = none; plan = none; stage_idx = 0 }

  -- `opts` with none of its five options set.
  unfoldable pub is_plain : WildcardOptions X → Bool
  is_plain opts =
      is_none opts.opt_ilike
      && is_none opts.opt_except
      && is_none opts.opt_rename
      && is_none opts.opt_exclude
      && is_none opts.opt_replace

  unfoldable pub is_valid_select_item : SelectItem X → Bool
  unfolding is_plain
  is_valid_select_item (unnamed_expr e) = true
  is_valid_select_item (expr_with_alias e alias) = true
  is_valid_select_item (qualified_wildcard name opts) = is_plain opts
  is_valid_select_item (wildcard opts) = is_plain opts

  unfoldable pub build_materialization : List (SelectItem X) → LogicalPlanNodeType X
  unfolding is_valid_select_item
  build_materialization items = Logical.materialize (keep is_valid_select_item items)

  unfoldable pub build_select_filter : Option X.Expr → Option (LogicalPlanNodeType X)
  build_select_filter none = none
  build_select_filter (some expr) = some (Logical.filter expr)

  -- A relation with arguments is a table function.
  abbrev pub relation_node :
      Option Text → Text → Option (List X.FunctionArg) → LogicalPlanNodeType X
  relation_node alias name none = Logical.table alias name
  relation_node alias name (some args) = Logical.table_func alias name args

  unfoldable pub table_relation_plan_node :
      List Text
      → Option Text
      → Option (List X.FunctionArg)
      → Outcome PlanError (LogicalPlanNodeType X)
  table_relation_plan_node name alias args =
      if length name == 1
      then (elim (last? name) [
        | none ↦ err (not_implemented [])
        | some ident ↦ ok (relation_node alias ident args)
      ])
      else err (
          not_implemented (
            codes "table names with "
            ++ (decimal (length name) ++ codes " components have not been")))

  unfoldable pub build_select_from_relation :
      TableFactor X → Outcome PlanError (LogicalPlanNodeType X)
  unfolding table_relation_plan_node
  build_select_from_relation (Sql.table name alias args) = table_relation_plan_node name alias args
  build_select_from_relation other_factor = err (not_implemented (codes "from relation"))

  -- The relations alone: nothing reads the joins.
  unfoldable pub build_select_from :
      List (TableWithJoins X) → Outcome PlanError (List (LogicalPlanNodeType X))
  unfolding build_select_from_relation
  build_select_from [] = ok []
  build_select_from (t ∷ ts) = do
    node ← build_select_from_relation t.relation
    nodes ← build_select_from ts
    ok (node ∷ nodes)

  unfoldable pub add_nodes : LogicalPlan X → Stage → List (LogicalPlanNodeType X) → LogicalPlan X
  unfolding add_node
  add_nodes p stage [] = p
  add_nodes p stage (node ∷ nodes) = add_nodes (add_node p node stage).0 stage nodes

  unfoldable pub filter_and_materialize :
      LogicalPlan X
      → Stage
      → Stage
      → Stage
      → Option (LogicalPlanNodeType X)
      → LogicalPlanNodeType X
      → LogicalPlan X
  unfolding add_node connect_stages
  filter_and_materialize p sources_stage f_stage m_stage (some filter_node) m_node =
      let q = (add_node (add_node p filter_node f_stage).0 m_node m_stage).0 in
      connect_stages (connect_stages q sources_stage f_stage) f_stage m_stage
  filter_and_materialize p sources_stage f_stage m_stage none m_node =
      connect_stages (add_node p m_node m_stage).0 sources_stage m_stage

  -- The stages take three ids, also when the tables are refused afterwards.
  unfoldable pub build_select_query_plan :
      LogicalPlanner X → SetExpr X → LogicalPlanner X × Outcome PlanError (LogicalPlan X)
  unfolding build_select_from add_nodes filter_and_materialize build_select_filter
      build_materialization Logical.new
  build_select_query_plan planner other_set =
      (planner, err (not_implemented (codes "non-select query")))
  build_select_query_plan planner (select s) =
      let i = planner.stage_idx in
      let sources_stage : Stage = record { id = i; typ = table_source; is_root = false } in
      let f_stage : Stage = record { id = i + 1; typ = filter_stage; is_root = false } in
      let m_stage : Stage = record { id = i + 2; typ = materialize_stage; is_root = true } in
      (
        record planner { stage_idx = i + 3 },
        do
          table_sources ← build_select_from s.sources
          ok (
              filter_and_materialize (add_nodes Logical.new sources_stage table_sources)
                sources_stage f_stage m_stage (build_select_filter s.selection)
                (build_materialization s.projection)),
      )

  unfoldable pub build_ast :
      (Text → Option (List (Statement X))) → LogicalPlanner X → Outcome PlanError (Statement X)
  build_ast parse_sql planner = elim (parse_sql planner.query_text) [
    | none ↦ err parser_error
    | some [] ↦ err (number_of_statements_not_equal_to_one 0)
    | some (s ∷ []) ↦ ok s
    | some (s ∷ t ∷ ss) ↦ err (number_of_statements_not_equal_to_one (length (s ∷ t ∷ ss)))
  ]

  unfoldable pub build_plan :
      LogicalPlanner X → Option (Statement X) → LogicalPlanner X × Outcome PlanError (LogicalPlan X)
  unfolding build_select_query_plan
  build_plan planner (some (query body)) = build_select_query_plan planner body
  build_plan planner (some other_statement) =
      (planner, err (not_implemented (codes "sql statement type not implemented")))
  build_plan planner none =
      (planner, err (not_implemented (codes "sql statement type not implemented")))

  -- A plan that was built is kept.
  abbrev pub keep_plan :
      LogicalPlanner X × Outcome PlanError (LogicalPlan X)
      → LogicalPlanner X × Outcome PlanError (LogicalPlan X)
  keep_plan (planner, ok plan) = (record planner { plan = some plan }, ok plan)
  keep_plan (planner, err e) = (planner, err e)
  keep_plan (planner, panic) = (planner, panic)

  abbrev pub plan_ast :
      LogicalPlanner X
      → Outcome PlanError (Statement X)
      → LogicalPlanner X × Outcome PlanError (LogicalPlan X)
  plan_ast planner (ok ast) = keep_plan (build_plan (record planner { ast = some ast }) (some ast))
  plan_ast planner (err e) = (planner, err e)
  plan_ast planner panic = (planner, panic)

  unfoldable pub build :
      (Text → Option (List (Statement X)))
      → LogicalPlanner X
      → LogicalPlanner X × Outcome PlanError (LogicalPlan X)
  unfolding build_ast build_plan
  build parse_sql planner = elim planner.plan [
    | some plan ↦ (planner, ok plan)
    | none ↦ plan_ast planner (build_ast parse_sql planner)
  ]
