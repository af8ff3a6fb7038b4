-- ===== src/Exchange/Pool/Queues.antt =====
-- src/handlers/operator_handler/operators/exchange_operator.rs, `OperatorRecordQueue`: the queues that
-- a pool holds, and the laws of looking one up and writing it back.
mod Defs
mod Laws
unfoldable pub use Defs.*
pub use Laws.*
