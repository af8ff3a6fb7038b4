-- ===== src/Planner/Logical.antt =====
-- src/planner/logical_planner.rs: the logical plan, a graph of nodes in stages, and its planner.
-- `Parser::parse_sql` is an argument; `none` is its error.
pub mod Stages
pub mod Edges
use chapterhouse_qe.Common.{
  ℕ, suc, ◌+◌, ◌<◌, Bool, true, false, Option, none, some, List, [], ◌∷◌, ◌++◌, map, ltb, ◌==◌,
  ◌&&◌, if◌then◌else◌, length, any, find, select, Text, codes, decimal, Outcome, ok, err, panic,
  ◌>>=◌,
}
use chapterhouse_qe.Common.Map
use chapterhouse_qe.External.{External}
use chapterhouse_qe.Planner.Sql
use chapterhouse_qe.Planner.Sql.{
  SelectItem, WildcardOptions, TableFactor, Select, SetExpr, Statement,
}

pub data PlanError : Type 0 where
  number_of_statements_not_equal_to_one : ℕ → PlanError
  node_does_not_exist : ℕ → PlanError
  not_implemented : Text → PlanError
  parser_error : PlanError

pub data StageType : Type 0 where
  table_source filter_stage materialize_stage : StageType

pub record Stage : Type 0 where
  pub id : ℕ
  pub typ : StageType
  pub is_root : Bool

abbrev pub stage_type_eq : StageType → StageType → Bool
stage_type_eq table_source table_source = true
stage_type_eq filter_stage filter_stage = true
stage_type_eq materialize_stage materialize_stage = true
stage_type_eq _ _ = false

abbrev pub bool_eq : Bool → Bool → Bool
bool_eq true b = b
bool_eq false true = false
bool_eq false false = true

-- `#[derive(PartialEq)]`.
abbrev pub stage_eq : Stage → Stage → Bool
stage_eq s t = s.id == t.id && stage_type_eq s.typ t.typ && bool_eq s.is_root t.is_root

module _ (X : External) where
  pub data LogicalPlanNodeType : Type 0 where
    table_func : Option Text → Text → List X.FunctionArg → LogicalPlanNodeType
    table : Option Text → Text → LogicalPlanNodeType
    filter : X.Expr → LogicalPlanNodeType
    materialize : List (SelectItem X) → LogicalPlanNodeType

  pub record LogicalPlanNode : Type 0 where
    pub id : ℕ
    pub node : LogicalPlanNodeType
    pub stage : Stage

  pub record LogicalPlan : Type 0 where
    pub nodes : List LogicalPlanNode
    pub outbound_edges : List (ℕ × List ℕ)
    pub inbound_edges : List (ℕ × List ℕ)

-- A value is added to the list of its key once.
unfoldable pub add_to_edges : ℕ → ℕ → List (ℕ × List ℕ) → List (ℕ × List ℕ)
add_to_edges key value edges = elim (Map.get key edges) [
  | none ↦ Map.insert key (value ∷ []) edges
  | some nodes ↦
      if any (λ val. val == value) nodes
      then edges
      else Map.insert key (nodes ++ (value ∷ [])) edges
]

module _ {X : External} where
  unfoldable pub new : LogicalPlan X
  new = record { nodes = []; outbound_edges = []; inbound_edges = [] }

  unfoldable pub get_root_node : LogicalPlan X → Option (LogicalPlanNode X)
  get_root_node p = find (λ node. node.stage.is_root) p.nodes

  unfoldable pub get_node : LogicalPlan X → ℕ → Option (LogicalPlanNode X)
  get_node p node_idx = find (λ item. item.id == node_idx) p.nodes

  unfoldable pub get_all_node_ids : LogicalPlan X → List ℕ
  get_all_node_ids p = map (λ node. node.id) p.nodes

  unfoldable pub get_outbound_nodes : LogicalPlan X → ℕ → Option (List ℕ)
  get_outbound_nodes p node_idx = Map.get node_idx p.outbound_edges

  unfoldable pub get_inbound_nodes : LogicalPlan X → ℕ → Option (List ℕ)
  get_inbound_nodes p node_idx = Map.get node_idx p.inbound_edges

  unfoldable pub has_inbound_edges : LogicalPlan X → ℕ → Outcome PlanError Bool
  has_inbound_edges p node_idx = elim (Map.get node_idx p.inbound_edges) [
    | none ↦ err (node_does_not_exist node_idx)
    | some nodes ↦ ok (ltb 0 (length nodes))
  ]

  -- The number returned is the length after the push, one more than the id of the new node.
  unfoldable pub add_node : LogicalPlan X → LogicalPlanNodeType X → Stage → LogicalPlan X × ℕ
  add_node p node stage =
      let nodes = p.nodes ++ (record { id = length p.nodes; node = node; stage = stage } ∷ []) in
      (record p { nodes = nodes }, length nodes)

  unfoldable pub add_to_outbound_edges : LogicalPlan X → ℕ → ℕ → LogicalPlan X
  unfolding add_to_edges
  add_to_outbound_edges p key value = record p {
    outbound_edges = add_to_edges key value p.outbound_edges;
  }

  unfoldable pub add_to_inbound_edges : LogicalPlan X → ℕ → ℕ → LogicalPlan X
  unfolding add_to_edges
  add_to_inbound_edges p key value = record p {
    inbound_edges = add_to_edges key value p.inbound_edges;
  }

  unfoldable pub connect : LogicalPlan X → ℕ → ℕ → LogicalPlan X
  unfolding add_to_outbound_edges add_to_inbound_edges
  connect p from_node_idx to_node_idx =
      add_to_inbound_edges (add_to_outbound_edges p from_node_idx to_node_idx) to_node_idx
        from_node_idx

  -- The indices, counted from `idx`, of the nodes of a stage.
  unfoldable pub stage_idxs : Stage → ℕ → List (LogicalPlanNode X) → List ℕ
  stage_idxs stage idx [] = []
  stage_idxs stage idx (node ∷ nodes) =
      if stage_eq node.stage stage
      then idx ∷ stage_idxs stage (idx + 1) nodes
      else stage_idxs stage (idx + 1) nodes

  unfoldable pub connect_to_all : LogicalPlan X → ℕ → List ℕ → LogicalPlan X
  unfolding connect
  connect_to_all p from_idx [] = p
  connect_to_all p from_idx (to_idx ∷ tos) = connect_to_all (connect p from_idx to_idx) from_idx tos

  unfoldable pub connect_all : LogicalPlan X → List ℕ → List ℕ → LogicalPlan X
  unfolding connect_to_all
  connect_all p [] tos = p
  connect_all p (from_idx ∷ froms) tos = connect_all (connect_to_all p from_idx tos) froms tos

  unfoldable pub connect_stages : LogicalPlan X → Stage → Stage → LogicalPlan X
  unfolding connect_all stage_idxs
  connect_stages p from_stage to_stage =
      connect_all p (stage_idxs from_stage 0 p.nodes) (stage_idxs to_stage 0 p.nodes)
