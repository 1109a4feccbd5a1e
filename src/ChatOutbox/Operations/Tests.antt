-- ===== src/ChatOutbox/Operations/Tests.antt =====
-- Examples of the outbox on a keychain that rejects every change after some number of them, and then
-- loses the entry.
use etkin_link.Base.{
  arith, ℕ, zero, suc, ◌≡◌, refl, Bool, true, false, List, [], ◌∷◌, Option, none, some,
}
use etkin_link.Text.{Str}
use etkin_link.Int.{pos}
use etkin_link.Effect.Hoare.{Hoare}
use etkin_link.ChatOutbox.Message.{fit_storage_limit}
use etkin_link.ChatOutbox.Message.Examples.{
  phone, phone-IsJson, greeting, answer, Noon, answer-IsRecent,
}
use etkin_link.ChatOutbox.Storage.{Key, Storage, Slots, slot, put, IsKeychain}
use etkin_link.ChatOutbox.Operations.{write_all_unlocked, read_all_unlocked}
use etkin_link.ChatOutbox.Operations.Writing.{stored, Cut, write_all_unlocked-Hoare}
use etkin_link.ChatOutbox.Operations.Reading.{Holds, Kept, Recoverable, read_all_unlocked-Hoare}
use etkin_link.ChatOutbox.Operations.Missing.{read_all_unlocked-missing}
use etkin_link.ChatOutbox.Operations.Refinement.{HoldsResult, Interrupted}
use etkin_link.ChatOutbox.Operations.Serving.{serve-Hoare}
use etkin_link.ChatOutbox.Operations.Queue.{
  Request, serve, enqueue, remove_message, purge_all, mark,
}

-- The entries, and how many changes are left.
record Chip : Type 0 where
  slots : Slots
  changes : ℕ

abbrev change : ℕ → Key → Option Str → Slots → Bool × Chip
change zero k text s = (false, record { slots = put k none s; changes = 0 })
change (suc n) k text s = (true, record { slots = put k text s; changes = n })

abbrev chip : Storage Chip
chip = record {
  get = λ k w. (some (slot k w.slots), w);
  set = λ k text w. change w.changes k (some text) w.slots;
  remove = λ k w. change w.changes k none w.slots;
  now = λ w. (pos 1000, w);
}

abbrev entries : Chip → Slots
entries w = w.slots

change-done :
    (n : ℕ) (k : Key) (text : Option Str) (s : Slots)
    → (change n k text s).0 ≡ true
    → (change n k text s).1.slots ≡ put k text s
change-done zero k text s e = grind arith
change-done (suc n) k text s e = refl

change-lost :
    (n : ℕ) (k : Key) (text : Option Str) (s : Slots)
    → (change n k text s).0 ≡ false
    → (left : Option Str) × ((change n k text s).1.slots ≡ put k left s)
change-lost zero k text s e = (none, refl)
change-lost (suc n) k text s e = grind arith

chip-IsKeychain : IsKeychain chip entries Noon
chip-IsKeychain = record {
  get_keeps = λ k w. refl;
  get_reads = λ k w text e. cc;
  set_writes = λ k text w. change-done w.changes k (some text) w.slots;
  set_rejected = λ k text w. change-lost w.changes k (some text) w.slots;
  remove_writes = λ k w. change-done w.changes k none w.slots;
  remove_rejected = λ k w. change-lost w.changes k none w.slots;
  now_keeps = λ w. refl;
  now_shows = λ w. refl;
}

write_all_unlocked-Hoare_example :
    Hoare entries
      (λ s. s.main_text ≡ stored phone (greeting ∷ []))
      (λ _ s. s.main_text ≡ stored phone (fit_storage_limit phone (greeting ∷ answer ∷ [])))
      (λ _ s.
        Cut
          (stored phone (greeting ∷ []))
          (stored phone (fit_storage_limit phone (greeting ∷ answer ∷ [])))
          s)
      (write_all_unlocked chip phone (greeting ∷ answer ∷ []))
write_all_unlocked-Hoare_example =
    write_all_unlocked-Hoare chip-IsKeychain phone (stored phone (greeting ∷ []))
      (greeting ∷ answer ∷ [])

read_all_unlocked-Hoare_example :
    Hoare entries
      (λ s. Recoverable phone Noon (greeting ∷ answer ∷ []) s)
      (λ r s. (r ≡ greeting ∷ answer ∷ []) × Holds phone Noon (greeting ∷ answer ∷ []) s)
      (λ _ s. Kept phone Noon (greeting ∷ answer ∷ []) s)
      (read_all_unlocked chip phone)
read_all_unlocked-Hoare_example =
    read_all_unlocked-Hoare chip-IsKeychain phone phone-IsJson (greeting ∷ answer ∷ [])

read_all_unlocked-missing_example :
    Hoare entries
      (λ s. (s.main_text ≡ none) × (s.backup_text ≡ stored phone (greeting ∷ [])))
      (λ r s. (r ≡ []) × ((s.main_text ≡ none) × (s.backup_text ≡ stored phone (greeting ∷ []))))
      (λ _ s. (s.main_text ≡ none) × (s.backup_text ≡ stored phone (greeting ∷ [])))
      (read_all_unlocked chip phone)
read_all_unlocked-missing_example =
    read_all_unlocked-missing chip-IsKeychain phone (stored phone (greeting ∷ []))

serve-Hoare_example :
    Hoare entries
      (λ s. Recoverable phone Noon (greeting ∷ []) s)
      (λ _ s. HoldsResult phone Noon (enqueue answer) (greeting ∷ []) s)
      (λ _ s. Interrupted phone Noon (enqueue answer) (greeting ∷ []) s)
      (serve chip phone (enqueue answer))
serve-Hoare_example =
    serve-Hoare chip-IsKeychain phone phone-IsJson (enqueue answer) (greeting ∷ [])
      (λ now e. rw e answer-IsRecent)

abbrev requests : List Request
requests =
    enqueue answer
    ∷ mark greeting
    ∷ remove_message greeting.owner_id greeting.client_message_id
    ∷ purge_all
    ∷ []
