-- ===== src/Exchange.antt =====
-- src/handlers/operator_handler/operators/exchange_operator.rs: the record pool of an exchange, and the
-- handlers around it.
pub mod Pool
pub mod Operator
