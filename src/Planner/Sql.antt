-- ===== src/Planner/Sql.antt =====
-- The part of `sqlparser::ast` that src/planner/logical_planner.rs matches on. Names that the planner
-- does not reach stand together as one constructor.
use chapterhouse_qe.Common.{List, Option, Text}
use chapterhouse_qe.External.{External}

module _ (X : External) where
  pub record WildcardOptions : Type 0 where
    pub opt_ilike : Option X.WildcardOption
    pub opt_except : Option X.WildcardOption
    pub opt_rename : Option X.WildcardOption
    pub opt_exclude : Option X.WildcardOption
    pub opt_replace : Option X.WildcardOption

  pub data SelectItem : Type 0 where
    unnamed_expr : X.Expr → SelectItem
    expr_with_alias : X.Expr → Text → SelectItem
    qualified_wildcard : List Text → WildcardOptions → SelectItem
    wildcard : WildcardOptions → SelectItem

  pub data TableFactor : Type 0 where
    table : List Text → Option Text → Option (List X.FunctionArg) → TableFactor
    other_factor : TableFactor

  pub record TableWithJoins : Type 0 where
    pub relation : TableFactor
    pub joins : List X.Join

  pub record Select : Type 0 where
    pub projection : List SelectItem
    pub sources : List TableWithJoins
    pub selection : Option X.Expr

  pub data SetExpr : Type 0 where
    select : Select → SetExpr
    other_set : SetExpr

  pub data Statement : Type 0 where
    query : SetExpr → Statement
    other_statement : Statement
