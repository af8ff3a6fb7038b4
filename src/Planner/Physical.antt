-- ===== src/Planner/Physical.antt =====
-- src/planner/physical_planner.rs: operators, pipelines, and the planner that makes them from a
-- logical plan.
pub mod Operators
pub mod Planner
pub mod Ids
pub mod Made
pub mod Wiring
pub mod Single
