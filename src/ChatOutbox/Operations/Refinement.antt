-- ===== src/ChatOutbox/Operations/Refinement.antt =====
-- The outbox as a list of messages: what its operations do to the list, and what the storage holds
-- between them and where they stop. mobile/src/shared/lib/chatOutbox.ts.
use etkin_link.Base.{
  ◌≡◌, refl, false, none, List, [], ◌∷◌, Option, ◌⊎◌, inl, inr, map, All, All-append_right,
  Bool-cases, sym,
}
use etkin_link.Int.{ℤ}
use etkin_link.Text.{Str}
use etkin_link.Effect.{attempt, ◌>>=◌}
use etkin_link.Effect.Hoare.{Hoare, Hoare-bind, Hoare-given, Hoare-weaken, Hoare-fact}
use etkin_link.ChatOutbox.Message.{OutboxMessage, Count, Device, fit_storage_limit}
use etkin_link.ChatOutbox.Message.Laws.{IsJson, IsRecent, IsStorable, fit_storage_limit-Fits}
use etkin_link.ChatOutbox.Storage.{Storage, Step, Slots, IsKeychain}
use etkin_link.ChatOutbox.Operations.{
  is_set, same_message, marked, write_all_unlocked, read_all_unlocked,
}
use etkin_link.ChatOutbox.Operations.Writing.{
  stored, Cut, untouched, complete, backed, clearing, write_all_unlocked-Hoare,
}
use etkin_link.ChatOutbox.Operations.Reading.{Holds, Kept, Recoverable, read_all_unlocked-Hoare}
use etkin_link.ChatOutbox.Operations.Queue.{Request, enqueue, Applies}

-- None of the messages is too old at any time that the clock may show.
abbrev pub StayRecent : Device → (ℤ → Type 0) → List OutboxMessage → Type 0
StayRecent device T ms = (now : ℤ) → T now → All (IsRecent device now) ms

fit-IsStorable :
    (device : Device) (now : ℤ) (ms : List OutboxMessage)
    → All (IsRecent device now) ms
    → IsStorable device now (fit_storage_limit device ms)
fit-IsStorable device now ms h =
    let fits = fit_storage_limit-Fits device ms in
    (
      fits.few,
      All-append_right (IsRecent device now) fits.dropped (fit_storage_limit device ms)
          (rw fits.suffix h),
    )

created_at-marked :
    (message : OutboxMessage) (attempt : Count) (dead : Option Str) (next : Str) (m : OutboxMessage)
    → (marked message attempt dead next m).created_at ≡ m.created_at
unfolding marked
created_at-marked message attempt dead next m =
    elim (Bool-cases (same_message message.owner_id message.client_message_id m)) [
      | inl e ↦ rw e refl
      | inr e ↦ rw e refl
    ]

-- A message that is marked keeps its date.
pub marked-IsRecent :
    (device : Device) (now : ℤ) (message : OutboxMessage) (attempt : Count) (dead : Option Str)
    (next : Str) (ms : List OutboxMessage)
    → All (IsRecent device now) ms
    → All (IsRecent device now) (map (marked message attempt dead next) ms)
marked-IsRecent device now message attempt dead next [] h = tt
marked-IsRecent device now message attempt dead next (m ∷ ms) h = (
  rw (created_at-marked message attempt dead next m) h.0,
  marked-IsRecent device now message attempt dead next ms h.1,
)

abbrev pub IsFresh : Device → (ℤ → Type 0) → Request → Type 0
IsFresh device T (enqueue message) = (now : ℤ) → T now → IsRecent device now message
IsFresh device T _ = Unit {0}

-- The storage holds what a request makes of the messages.
abbrev pub HoldsResult : Device → (ℤ → Type 0) → Request → List OutboxMessage → Slots → Type 0
HoldsResult device T r ms s =
    (new : List OutboxMessage) × Applies device T r ms new × Holds device T new s

-- Nothing was stored before the request, or it leaves no messages.
abbrev pub NothingToKeep : Device → (ℤ → Type 0) → Request → List OutboxMessage → Type 0
NothingToKeep device T r ms = (is_set (stored device ms) ≡ false) ⊎ Applies device T r ms []

-- Where a rejected call stops a request: the main entry or the backup has the messages from before, or
-- the storage holds the result, or there was nothing to keep.
abbrev pub Interrupted : Device → (ℤ → Type 0) → Request → List OutboxMessage → Slots → Type 0
Interrupted device T r ms s =
    Kept device T ms s ⊎ (HoldsResult device T r ms s ⊎ NothingToKeep device T r ms)

no_messages : (device : Device) (ms : List OutboxMessage) → stored device ms ≡ none → ms ≡ []
no_messages device [] e = refl
no_messages device (m ∷ ms) e = cc

module _ {W : Type 0} {storage : Storage W} {slots : W → Slots} {T : ℤ → Type 0}
    (keychain : IsKeychain storage slots T) (device : Device) (r : Request)
    (ms : List OutboxMessage) where
  pub write-Result :
      (new : List OutboxMessage)
      → StayRecent device T new
      → Applies device T r ms (fit_storage_limit device new)
      → Hoare slots
          (λ s. Holds device T ms s)
          (λ _ s. HoldsResult device T r ms s)
          (λ _ s. Interrupted device T r ms s)
          (write_all_unlocked storage device new)
  write-Result new recent applies = Hoare-given _ (λ s₀ h₀.
      Hoare-weaken (λ s. s.main_text ≡ stored device ms) _ _ _
        (write_all_unlocked-Hoare keychain device (stored device ms) new) (λ s h. h.text)
        (λ _ s e. result s e) (λ _ s c. cut s h₀.storable c))
    where
      result :
          (s : Slots)
          → s.main_text ≡ stored device (fit_storage_limit device new)
          → HoldsResult device T r ms s
      result s e = (
        fit_storage_limit device new,
        applies,
        record { text = e; storable = λ now t. fit-IsStorable device now new (recent now t) },
      )

      cut :
          (s : Slots)
          → ((now : ℤ) → T now → IsStorable device now ms)
          → Cut (stored device ms) (stored device (fit_storage_limit device new)) s
          → Interrupted device T r ms s
      cut s storable (untouched e) = inl (inl (record { text = e; storable = storable }))
      cut s storable (complete e) = inr (inl (result s e))
      cut s storable (backed e) = elim (Bool-cases (is_set (stored device ms))) [
        | inl was ↦ inl (inr (record { text = e was; storable = storable }))
        | inr none_was ↦ inr (inr (inl none_was))
      ]
      cut s storable (clearing e) = inr (inr (inr (rw (sym (no_messages device _ e)) applies)))

  -- A request reads the list before it writes.
  pub after_read :
      (f : List OutboxMessage → Step W (Unit {0}))
      → IsJson device
      → Hoare slots
          (λ s. Holds device T ms s)
          (λ _ s. HoldsResult device T r ms s)
          (λ _ s. Interrupted device T r ms s)
          (f ms)
      → Hoare slots
          (λ s. Recoverable device T ms s)
          (λ _ s. HoldsResult device T r ms s)
          (λ _ s. Interrupted device T r ms s)
          (read_all_unlocked storage device >>= f)
  after_read f json h =
      Hoare-bind (λ current s. (current ≡ ms) × Holds device T ms s) _ _
        (Hoare-weaken _ _ _ _ (read_all_unlocked-Hoare keychain device json ms) (λ s p. p)
          (λ _ s p. p) (λ _ s p. inl p))
        (λ current. Hoare-fact _ _ (λ e. rw e h))
