-- ===== src/PushDispatch/Process/States.antt =====
-- The states in which the parts of the delivery stand, and what each part keeps.
use etkin_link.Base.{ℕ, ◌≡◌, refl, Bool, not, true, false, List}
use etkin_link.Effect.{Act}
use etkin_link.Effect.Protocol.{Triple}
use etkin_link.PushDispatch.Outcome.{PushToken}
use etkin_link.PushDispatch.Process.{
  NotificationEvent, Trouble, persistence_error, provider_error, Call,
}
use etkin_link.PushDispatch.Process.Safety.{Progress, observe, Allowed}

abbrev pub Rule :
    (event : NotificationEvent) (all : List PushToken) {W A : Type 0}
    → (Progress → Type 0)
    → (A → Progress → Type 0)
    → (Trouble → Progress → Type 0)
    → Act W Call Trouble A
    → Type 0
Rule event all Pre Post Fail m = Triple (Allowed event all) (observe all) Pre Post Fail m

-- Inside the `try` the status is not stored; a failure of the service counts the pending tokens.
abbrev pub Open : Progress → Type 0
Open g = (g.read ≡ true) × (g.settled ≡ false)

abbrev pub Failing : Trouble → Progress → Type 0
Failing (persistence_error lost) g = g.settled ≡ false
Failing (provider_error retryable pending) g = (g.settled ≡ false) × (g.pending ≡ pending)

abbrev pub Waits : ℕ → List PushToken → Progress → Type 0
Waits pending tokens g =
    (g.read ≡ true) × (g.settled ≡ false) × (g.pending ≡ pending) × (g.queue ≡ tokens)

pub true_of_not : (b : Bool) → not b ≡ false → b ≡ true
true_of_not true h = refl
true_of_not false h = cc

pub false_of_not : (b : Bool) → not b ≡ true → b ≡ false
false_of_not true h = cc
false_of_not false h = refl
