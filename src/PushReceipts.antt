-- ===== src/PushReceipts.antt =====
-- The delivery receipts of push messages: supabase/functions/push-receipts.
pub mod Receipt
pub mod Handler
