-- ===== src/ChatOutbox/Operations/Service.antt =====
-- The queue of the outbox as a whole: mobile/src/shared/lib/chatOutbox.ts.
use etkin_link.Effect.Hoare.{Hoare}
use etkin_link.ChatOutbox.Storage.{Storage}
