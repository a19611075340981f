-- ===== src/Sessions.antt =====
-- The sessions of conversations: src/common/conversation-session and the test sessions of
-- src/common/conversation-orchestration.
pub mod RedisStore
pub mod DbStore
pub mod Lifecycle
pub mod TestSession
