-- ===== src/PushDispatch/Process/Protocol.antt =====
-- The delivery of one notification, against its protocol.
use etkin_link.Base.{ℕ, ◌≡◌, Bool, true, false, List, Option, some, length}
use etkin_link.Text.{Str}
use etkin_link.Http.{Platform}
use etkin_link.PushDispatch.Outcome.{PushToken}
use etkin_link.PushDispatch.Process.{
  NotificationEvent, Trouble, persistence_error, provider_error, Dependencies, pending_tokens,
}
use etkin_link.PushDispatch.Process.Safety.{Progress}
use etkin_link.PushDispatch.Process.States.{Waits}

module _ {W : Type 0} (platform : Platform) (deps : Dependencies W) (event : NotificationEvent)
    (all : List PushToken) where
  -- After an update that is stored the event is settled.
  Written : Bool → ℕ → Progress → Type 0
  Written saved pending g =
      (g.pending ≡ pending)
      × (saved ≡ true → g.settled ≡ true)
      × (saved ≡ false → g.settled ≡ false)

  Found : Option (List Str) → Progress → Type 0
  Found reply g =
      (g.settled ≡ false)
      × ((completed_ids : List Str)
          → reply ≡ some completed_ids
          → Waits (length (pending_tokens all completed_ids)) (pending_tokens all completed_ids) g)

  -- What is known of the pending tokens when an error was caught.
  abbrev Counted : Trouble → Progress → Type 0
  Counted (persistence_error lost) g = Unit
  Counted (provider_error retryable pending) g = g.pending ≡ pending
