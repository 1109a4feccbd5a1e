-- ===== src/DeleteAccount.antt =====
-- The account deletion function: supabase/functions/delete-account.
pub mod State
pub mod Request
pub mod Handler
pub mod Drain
pub mod Worker
