-- ===== src/External.antt =====
-- The types of third-party crates that the program stores and passes on without looking inside:
-- `sqlparser::ast::{Expr, FunctionArg, Join}`, what the options of a wildcard in `sqlparser` carry, and
-- `arrow::array::RecordBatch`.

pub record External : Type 1 where
  pub Expr : Type 0
  pub FunctionArg : Type 0
  pub Join : Type 0
  pub WildcardOption : Type 0
  pub RecordBatch : Type 0
