-- ===== src/Lib.antt =====
-- ChapterhouseQE, a query engine of workers that exchange records: a model of its core, with proofs.
--
-- A query is planned twice (planner/logical_planner.rs, planner/physical_planner.rs): the logical plan
-- is a graph of tables, an optional filter and a root that materializes; the physical plan has two
-- operators for each of its nodes, a producer that does the work and an exchange that holds the
-- records between this producer and the next ones. A worker that is told of a query
-- (handlers/query_handler/query_handler_state.rs) keeps an instance of every operator, and hands out
-- instances as far as the compute of a worker goes
-- (handlers/operator_handler/operator_handler_state.rs). The exchange's record pool
-- (handlers/operator_handler/operators/exchange_operator.rs) gives every record to every consuming
-- operator. Workers talk in messages of a binary format
-- (handlers/message_handler/messages/message.rs, message_registry.rs), which a connection cuts out of a
-- stream (handlers/message_handler/connection.rs) and a router hands to operators and workers
-- (handlers/message_router_handler). The query handler and the operator handler of a worker answer
-- these messages (query_handler.rs, operator_handler.rs): the query handler offers its instances to all
-- workers, an operator handler says what it can run, starts the operators that it is assigned
-- (operators/builder.rs, operators/operator_task_registry.rs) and reports how they end, and the query
-- handler then tells the exchanges that no longer are read to shut down
-- (operators/requests). All these paths are under the folder src of the repository.
--
-- The files:
--   Common and its children: tests on numbers, lists, texts as bytes, results that may fail or panic,
--     and association lists for `HashMap`.
--   External: the types of third-party crates that the program only stores and passes on.
--   Planner/Sql, Planner/Logical, Planner/LogicalPlanner: the parser's syntax tree as far as the
--     planner matches on it, the plan graph (`LogicalPlan`) and `LogicalPlanner`. Logical/Stages and
--     Logical/Edges have the laws of stages and of the two edge maps, LogicalPlanner/Indices, Shape and
--     Kept those of the planner.
--   Planner/Physical/Operators, Planner/Physical/Planner: `Pipeline`, `PhysicalPlan` and
--     `PhysicalPlanner`; Ids, Made, Wiring and Single beside them have the ids, what the operators say of
--     each other, and the queries over one table.
--   Exchange/Pool: `RecordPool`, one function for each method; Pool/Queues has `OperatorRecordQueue`.
--     Pool/Calls makes one step function of the methods and defines the pools that can be reached;
--     Pool/Contents and Pool/Handing follow the records through a call.
--   Exchange/Operator: the handlers of `ExchangeOperator` over the pool; Operator/Draining follows
--     them, and Operator/Resending has a record that comes twice.
--   Messages/Pipe: `Pipe` in handlers/message_handler/comms.rs, where a request waits for its reply.
--   Messages/Payloads: the payloads of the messages that the handlers act on.
--   Messages/Connection: the loop of `Connection` on the bytes that it reads; Connection/Framing and
--     Connection/Reading follow messages through it, and Connection/Halting has its inner turns.
--   Messages/Router: `MessageRouterState` in handlers/message_router_handler; Router/Streams has its law.
--   Messages/Routing: the decisions of `MessageRouterHandler`; Routing/Replies follows a request and
--     its reply.
--   Messages/Names, Messages/Bytes, Messages/Wire, Messages/Message: `MessageName`, the reads and writes
--     of the crate `bytes`, `SerializedMessage`, and `Message` with `MessageRegistry::build_msg`.
--   Workers/Compute, Workers/Instances: `TotalOperatorCompute` and `OperatorHandlerState`.
--   Workers/Queries: `QueryHandlerState`; Queries/Exchanges and Queries/Claims have its longer methods.
--   Workers/Actions: what handlers are made of: a state, calls that go out, errors; Actions/Keeping has
--     the parts of the state that an action leaves alone.
--   Workers/Requests: the functions in operators/requests and `check_response`; Requests/Tries is about
--     their retries (utils/retry.rs).
--   Workers/Records, Workers/Identification: the requests that an operator makes to an exchange, and its
--     search for the exchange; Identification/Answers has what it may rely on.
--   Workers/Exchanges, Workers/Producers: the loops of `ExchangeOperator` and `ProducerOperator` over what
--     wakes them; Exchanges/Serving follows a request for a record.
--   Workers/Planned, Workers/Shutdowns, Workers/QueryHandler: `QueryHandler`. Planned is its planning,
--     Shutdowns its shutting down of exchanges; QueryHandler/Progress and Statuses follow the status of
--     a query.
--   Workers/Builder, Workers/OperatorHandler: `build_operator` with its registry, and `OperatorHandler`;
--     OperatorHandler/Offers and Rejections have what it offers and refuses.
--   Workers/Subscribers: which messages each handler asks the router for.
--   Examples: the theorems at concrete inputs, and runs.
--
-- Conventions. A method on `&mut self` takes the state and returns the new one beside its result. A
-- result is an `Outcome`: `ok`, `err`, or `panic` where the code unwraps, indexes or reads past an end.
-- `chrono::Utc::now()` and new uuids are arguments. A `HashMap` is visited in the order of its
-- association list. Counters and compute are words, with their wrap-around written out; ids are
-- numbers, and where a width matters a hypothesis bounds them. The loop of the physical planner takes
-- fuel, and `none` says that it ran out: each id on its stack costs one unit, and eight are enough for
-- a query over one table (Planner/Physical/Single).
-- A call that a handler makes is answered by the `Environment`, a function of its number, so a theorem
-- about a handler holds however its calls go. The planner of a query handler that uses up its fuel
-- ends in an error of its own. The inner turns of a connection take the length of the buffer and one
-- more as fuel: each turn that goes on takes a byte at least. A payload's constructor stands for the
-- name and the type at once, so that the casts of the code cannot fail. The parsers of payloads, the
-- byte order of `bytes` and `Parser::parse_sql` are arguments, with the documented laws that a theorem
-- needs as hypotheses or fields.
--
-- Not modelled: sockets, channels, timers and cancellation; the writing side of a connection and the
-- pool of connections; the tasks over files and Arrow records, and the start and the closing of a
-- task; the client and the binaries.
pub mod Common
pub mod External
pub mod Planner
pub mod Exchange
pub mod Messages
pub mod Workers
mod Examples
