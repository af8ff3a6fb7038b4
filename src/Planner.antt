-- ===== src/Planner.antt =====
-- src/planner: from the syntax tree of a query to the operators that compute it.
pub mod Sql
pub mod Logical
pub mod LogicalPlanner
pub mod Physical
