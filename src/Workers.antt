-- ===== src/Workers.antt =====
-- src/handlers/operator_handler and src/handlers/query_handler: the compute of a worker, the operator
-- instances that it runs, and the queries whose instances it claims.
pub mod Compute
pub mod Instances
pub mod Totals
pub mod Queries
pub mod Records
pub mod Exchanges
pub mod Producers
pub mod Identification
pub mod Actions
pub mod Requests
pub mod QueryHandler
pub mod Planned
pub mod Shutdowns
pub mod Subscribers
pub mod Builder
pub mod OperatorHandler
