-- ===== src/PushDispatch.antt =====
-- The sending of push messages: supabase/functions/push-dispatch.
pub mod Command
pub mod Tickets
pub mod Outcome
pub mod Process
pub mod Concurrency
