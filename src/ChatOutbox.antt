-- ===== src/ChatOutbox.antt =====
-- The outbox of the chat: mobile/src/shared/lib/chatOutbox.ts, with the limits of
-- mobile/src/shared/constants/limits.ts.
pub mod Message
pub mod Storage
pub mod Operations
pub mod Flush
