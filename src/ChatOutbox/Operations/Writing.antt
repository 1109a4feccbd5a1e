-- ===== src/ChatOutbox/Operations/Writing.antt =====
-- What `writeAllUnlocked` leaves in the storage, also where it stops: mobile/src/shared/lib/chatOutbox.ts.
use etkin_link.Base.{◌≡◌, refl, ◌∙◌, sym, true, List, [], ◌∷◌, Option, none, some, arith}
use etkin_link.Int.{ℤ}
use etkin_link.Text.{Str}
use etkin_link.Effect.Hoare.{Hoare, Hoare-pure, Hoare-bind, Hoare-assume, Hoare-fact}
use etkin_link.ChatOutbox.Message.{OutboxMessage, Device, serialize, fit_storage_limit}
use etkin_link.ChatOutbox.Storage.{
  main, backup, Storage, Slots, IsKeychain, read_item-Rule, write_item-Rule, delete_item-Rule,
}
use etkin_link.ChatOutbox.Operations.{
  is_set, delete_both, keep_previous, replace_main, write_fitted, write_all_unlocked,
}

-- What the main entry is for a list of messages.
abbrev pub stored : Device → List OutboxMessage → Option Str
stored device [] = none
stored device (m ∷ ms) = some (serialize device (m ∷ ms))

-- What a write leaves that a rejected call stopped: the old text, or the new one, or any text while
-- the backup has the old one, unless that was none. Where no message is left to write, nothing is kept.
pub data Cut (old new : Option Str) (s : Slots) : Type 0 where
  untouched : s.main_text ≡ old → Cut old new s
  complete : s.main_text ≡ new → Cut old new s
  backed : (is_set old ≡ true → s.backup_text ≡ old) → Cut old new s
  clearing : new ≡ none → Cut old new s

-- The main entry is old, and the backup too.
abbrev Ready : Option Str → Slots → Type 0
Ready old s = (s.main_text ≡ old) × (is_set old ≡ true → s.backup_text ≡ old)

module _ {W : Type 0} {storage : Storage W} {slots : W → Slots} {T : ℤ → Type 0}
    (keychain : IsKeychain storage slots T) (device : Device) (old : Option Str) where
  delete_both-Rule :
      Hoare slots
        (λ s. s.main_text ≡ old)
        (λ _ s. s.main_text ≡ none)
        (λ _ s. Cut old none s)
        (delete_both storage device)
  unfolding delete_both
  delete_both-Rule =
      Hoare-bind (λ _ s. s.main_text ≡ none) _ _
        (delete_item-Rule keychain main (λ s. s.main_text ≡ none) (λ s p left. clearing refl)
          (λ s p. refl))
        (λ _.
          delete_item-Rule keychain backup (λ s. s.main_text ≡ none) (λ s q left. complete q)
            (λ s q. q))

  keep_previous-Rule :
      (text previous : Option Str)
      → previous ≡ old
      → Hoare slots
          (λ s. s.main_text ≡ old)
          (λ _ s. Ready old s)
          (λ _ s. Cut old text s)
          (keep_previous storage device previous)
  unfolding keep_previous is_set
  keep_previous-Rule text none e = Hoare-pure tt (λ s p. (p, rw (sym e) (λ f. grind arith)))
  keep_previous-Rule text (some []) e = Hoare-pure tt (λ s p. (p, rw (sym e) (λ f. grind arith)))
  keep_previous-Rule text (some (c ∷ previous)) e =
      write_item-Rule keychain backup (c ∷ previous) (λ s. Ready old s) (λ s p left. untouched p)
        (λ s p. (p, λ _. e))

  replace_main-Rule :
      (text : Str)
      → Hoare slots
          (λ s. s.main_text ≡ old)
          (λ _ s. s.main_text ≡ some text)
          (λ _ s. Cut old (some text) s)
          (replace_main storage device text)
  unfolding replace_main
  replace_main-Rule text =
      Hoare-bind (λ t s. (t ≡ s.main_text) × (s.main_text ≡ old)) _ _
        (read_item-Rule keychain main (λ s p. untouched p))
        (λ previous.
          Hoare-bind (λ _ s. Ready old s) _ _
            (Hoare-assume _
              (Hoare-fact (previous ≡ old) _ (λ e. keep_previous-Rule (some text) previous e))
              (λ s p. (p.0 ∙ p.1, p.1)))
            (λ _.
              Hoare-bind (λ _ s. s.main_text ≡ some text) _ _
                (write_item-Rule keychain main text (λ s. s.main_text ≡ some text)
                  (λ s p left. backed p.1) (λ s p. refl))
                (λ _.
                  delete_item-Rule keychain backup (λ s. s.main_text ≡ some text)
                    (λ s q left. complete q) (λ s q. q))))

  write_fitted-Rule :
      (ms : List OutboxMessage)
      → Hoare slots
          (λ s. s.main_text ≡ old)
          (λ _ s. s.main_text ≡ stored device ms)
          (λ _ s. Cut old (stored device ms) s)
          (write_fitted storage device ms)
  unfolding write_fitted
  write_fitted-Rule [] = delete_both-Rule
  write_fitted-Rule (m ∷ ms) = replace_main-Rule (serialize device (m ∷ ms))

  -- Whatever the main entry was, writing leaves it with the messages that fit. Where a rejected call
  -- stops the write, the main entry has the old text or the new one, or, whatever is left in it, the
  -- backup has the old text if there was one; unless no message is left to write. A rejected call may
  -- leave anything in its own entry, and leaves the other one as it was.
  pub write_all_unlocked-Hoare :
      (messages : List OutboxMessage)
      → Hoare slots
          (λ s. s.main_text ≡ old)
          (λ _ s. s.main_text ≡ stored device (fit_storage_limit device messages))
          (λ _ s. Cut old (stored device (fit_storage_limit device messages)) s)
          (write_all_unlocked storage device messages)
  unfolding write_all_unlocked
  write_all_unlocked-Hoare messages = write_fitted-Rule (fit_storage_limit device messages)
