-- ===== src/FuncOp.antt =====
-- The service func-operation: its tables, releases, outbox and conversation operations.
pub mod Model
pub mod Outbox
pub mod Release
pub mod Publishing
pub mod Delivery
pub mod Wording
pub mod Conversation
pub mod Progress
pub mod Readiness
mod Tests
