-- ===== src/Realtime.antt =====
-- internal/message/adapters: the real-time side of the messenger.
pub mod Client
pub mod Manager
pub mod Broadcast
pub mod Delivery
