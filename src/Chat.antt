-- ===== src/Chat.antt =====
-- internal/chat: rooms and the users that chat in them.
pub mod Access
pub mod Rooms
pub mod Users
