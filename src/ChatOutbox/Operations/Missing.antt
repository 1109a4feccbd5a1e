-- ===== src/ChatOutbox/Operations/Missing.antt =====
-- A main entry that is missing: `readAllUnlocked` of mobile/src/shared/lib/chatOutbox.ts.
use etkin_link.Base.{◌≡◌, refl, ◌∙◌, List, [], Option, none, some}
use etkin_link.Int.{ℤ}
use etkin_link.Text.{Str}
use etkin_link.Effect.Hoare.{Hoare, Hoare-pure, Hoare-bind, Hoare-fact}
use etkin_link.ChatOutbox.Message.{OutboxMessage, Device, parse_messages}
use etkin_link.ChatOutbox.Message.Laws.{parse_messages-none}
use etkin_link.ChatOutbox.Storage.{
  main, Storage, Slots, IsKeychain, read_item-Rule, read_clock-Rule,
}
use etkin_link.ChatOutbox.Operations.{differs, parse_now, rewrite_if, use_main, read_all_unlocked}

module _ {W : Type 0} {storage : Storage W} {slots : W → Slots} {T : ℤ → Type 0}
    (keychain : IsKeychain storage slots T) (device : Device) (kept : Option Str) where
  abbrev OnlyBackup : Slots → Type 0
  OnlyBackup s = (s.main_text ≡ none) × (s.backup_text ≡ kept)

  use_main-none :
      (raw : Option Str) (parsed : Option (List OutboxMessage))
      → raw ≡ none
      → parsed ≡ some []
      → Hoare slots
          (λ s. OnlyBackup s)
          (λ r s. (r ≡ []) × OnlyBackup s)
          (λ _ s. OnlyBackup s)
          (use_main storage device raw parsed)
  unfolding use_main rewrite_if differs
  use_main-none raw parsed e1 e2 =
      rw (e1, e2)
        (Hoare-bind (λ _ s. OnlyBackup s) _ _ (Hoare-pure tt (λ s h. h))
          (λ _. Hoare-pure [] (λ s h. (refl, h))))

  -- If the main entry is missing, reading finds no messages and leaves both entries as they are,
  -- whatever the backup has, also where a rejected call stops it.
  pub read_all_unlocked-missing :
      Hoare slots
        (λ s. (s.main_text ≡ none) × (s.backup_text ≡ kept))
        (λ r s. (r ≡ []) × ((s.main_text ≡ none) × (s.backup_text ≡ kept)))
        (λ _ s. (s.main_text ≡ none) × (s.backup_text ≡ kept))
        (read_all_unlocked storage device)
  unfolding read_all_unlocked parse_now
  read_all_unlocked-missing =
      Hoare-bind (λ raw s. (raw ≡ s.main_text) × OnlyBackup s) _ _
        (read_item-Rule keychain main (λ s p. p))
        (λ raw.
          Hoare-bind (λ parsed s. ((raw ≡ none) × (parsed ≡ some [])) × OnlyBackup s) _ _
            (Hoare-bind _ _ _ (read_clock-Rule keychain) (λ now.
              Hoare-pure (parse_messages device now raw) (λ s p.
                ((p.1.0 ∙ p.1.1.0, rw (p.1.0 ∙ p.1.1.0) (parse_messages-none device now)), p.1.1))))
            (λ parsed. Hoare-fact _ _ (λ f. use_main-none raw parsed f.0 f.1)))
