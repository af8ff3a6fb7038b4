-- ===== src/Messages.antt =====
-- src/handlers/message_handler: messages, their names, and the format that a connection carries.
pub mod Names
pub mod Bytes
pub mod Wire
pub mod Message
pub mod Pipe
pub mod Router
pub mod Payloads
pub mod Connection
pub mod Routing
