-- ===== src/Messaging.antt =====
-- internal/message/service: from a message that arrives to its publication.
pub mod Limits
pub mod Record
pub mod Process
pub mod Outbox
pub mod ReadPump
pub mod Retry
