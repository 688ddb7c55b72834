-- ===== src/Storage.antt =====
-- The tables of internal/message/storage, with the statements of sql/queries that they run.
pub mod Fault
pub mod Cache
pub mod Status
pub mod RetryQueue
pub mod Messages
pub mod Outbox
