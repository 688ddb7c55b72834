-- ===== src/Moderation.antt =====
-- internal/moderation.
pub mod Spam
