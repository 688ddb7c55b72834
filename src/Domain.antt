-- ===== src/Domain.antt =====
-- The shared vocabulary: internal/message/domain, internal/chat/domain and pkg/apperror.
pub mod Errors
pub mod Message
pub mod Room
