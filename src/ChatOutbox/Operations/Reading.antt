-- ===== src/ChatOutbox/Operations/Reading.antt =====
-- What `readAllUnlocked` finds in the storage: mobile/src/shared/lib/chatOutbox.ts.
use etkin_link.Base.{
  ◌≡◌, ◌≢◌, refl, sym, ◌∙◌, ap, false, List, [], ◌∷◌, Option, none, some, ◌⊎◌, inl, inr,
}
use etkin_link.Int.{ℤ}
use etkin_link.Text.{Str}
use etkin_link.Text.Laws.{str_eq_refl}
use etkin_link.Effect.Hoare.{Hoare, Hoare-pure, Hoare-bind, Hoare-given, Hoare-fact, Hoare-either}
use etkin_link.ChatOutbox.Message.{OutboxMessage, Device, serialize, parse_messages}
use etkin_link.ChatOutbox.Message.Laws.{
  IsJson, IsStorable, parse_messages-serialize, parse_messages-none,
}
use etkin_link.ChatOutbox.Storage.{
  main, backup, Storage, Slots, IsKeychain, read_item-Rule, write_item-Rule, delete_item-Rule,
  read_clock-Rule,
}
use etkin_link.ChatOutbox.Operations.{
  differs, parse_now, use_backup, rewrite_if, use_main, read_all_unlocked,
}
use etkin_link.ChatOutbox.Operations.Writing.{stored}

-- The storage holds these messages: they can be stored at each time that the clock may show, and they
-- are the main entry, whatever the backup is.
pub record Holds (device : Device) (T : ℤ → Type 0) (ms : List OutboxMessage) (s : Slots)
    : Type 0 where
  pub text : s.main_text ≡ stored device ms
  pub storable : (now : ℤ) → T now → IsStorable device now ms

-- The main entry cannot be read, and the backup has the messages.
pub record Damaged (device : Device) (T : ℤ → Type 0) (ms : List OutboxMessage) (s : Slots)
    : Type 0 where
  pub unreadable : (now : ℤ) → T now → parse_messages device now s.main_text ≡ none
  pub text : s.backup_text ≡ stored device ms
  pub storable : (now : ℤ) → T now → IsStorable device now ms
  pub filled : ms ≢ []

-- The backup has the messages, whatever the main entry is.
pub record Backed (device : Device) (T : ℤ → Type 0) (ms : List OutboxMessage) (s : Slots)
    : Type 0 where
  pub text : s.backup_text ≡ stored device ms
  pub storable : (now : ℤ) → T now → IsStorable device now ms

abbrev pub Kept : Device → (ℤ → Type 0) → List OutboxMessage → Slots → Type 0
Kept device T ms s = Holds device T ms s ⊎ Backed device T ms s

abbrev pub Recoverable : Device → (ℤ → Type 0) → List OutboxMessage → Slots → Type 0
Recoverable device T ms s = Holds device T ms s ⊎ Damaged device T ms s

differs_self : (text : Str) → differs text (some text) ≡ false
unfolding differs
differs_self [] = refl
differs_self (c ∷ text) = rw (str_eq_refl (c ∷ text))

differs-stored :
    (device : Device) (ms : List OutboxMessage)
    → differs (serialize device ms) (stored device ms) ≡ false
unfolding differs
differs-stored device [] = refl
differs-stored device (m ∷ ms) = differs_self (serialize device (m ∷ ms))

parse_messages-stored :
    (device : Device)
    → IsJson device
    → (now : ℤ) (ms : List OutboxMessage) → IsStorable device now ms
    → parse_messages device now (stored device ms) ≡ some ms
parse_messages-stored device json now [] h = parse_messages-none device now
parse_messages-stored device json now (m ∷ ms) h =
    parse_messages-serialize device json now (m ∷ ms) h

module _ {W : Type 0} {storage : Storage W} {slots : W → Slots} {T : ℤ → Type 0}
    (keychain : IsKeychain storage slots T) (device : Device) where
  parse_now-Rule :
      {Pre Stop : Slots → Type 0} (raw : Option Str)
      (Q : Option (List OutboxMessage) → Slots → Type 0)
      → ((now : ℤ) (s : Slots) → T now → Pre s → Q (parse_messages device now raw) s)
      → Hoare slots Pre Q (λ _ s. Stop s) (parse_now storage device raw)
  unfolding parse_now
  parse_now-Rule raw Q h =
      Hoare-bind _ _ _ (read_clock-Rule keychain)
        (λ now. Hoare-pure (parse_messages device now raw) (λ s p. h now s p.0 p.1))

  module _ (json : IsJson device) (ms : List OutboxMessage) where
    use_backup-Rule :
        (recovered : List OutboxMessage)
        → recovered ≡ ms
        → Hoare slots
            (λ s. Damaged device T ms s)
            (λ r s. (r ≡ ms) × Holds device T ms s)
            (λ _ s. Kept device T ms s)
            (use_backup storage device (some recovered))
    unfolding use_backup
    use_backup-Rule [] e = Hoare-given _ (λ s d. absurd (d.filled (sym e)))
    use_backup-Rule (m ∷ rest) e =
        Hoare-bind (λ _ s. Holds device T ms s) _ _
          (write_item-Rule keychain main (serialize device (m ∷ rest)) (λ s. Holds device T ms s)
            (λ s d left. inr (record { text = d.text; storable = d.storable }))
            (λ s d. record { text = ap (stored device) e; storable = d.storable }))
          (λ _.
            Hoare-bind (λ _ s. Holds device T ms s) _ _
              (delete_item-Rule keychain backup (λ s. Holds device T ms s)
                (λ s h left. inl (record { text = h.text; storable = h.storable }))
                (λ s h. record { text = h.text; storable = h.storable }))
              (λ _. Hoare-pure (m ∷ rest) (λ s h. (e, h))))

    use_main-Holds :
        (raw : Option Str) (parsed : Option (List OutboxMessage))
        → raw ≡ stored device ms
        → parsed ≡ some ms
        → Hoare slots
            (λ s. Holds device T ms s)
            (λ r s. (r ≡ ms) × Holds device T ms s)
            (λ _ s. Kept device T ms s)
            (use_main storage device raw parsed)
    unfolding use_main rewrite_if
    use_main-Holds raw parsed e1 e2 =
        rw (e1, e2, differs-stored device ms)
          (Hoare-bind (λ _ s. Holds device T ms s) _ _ (Hoare-pure tt (λ s h. h))
            (λ _. Hoare-pure ms (λ s h. (refl, h))))

    use_main-Damaged :
        (raw : Option Str) (parsed : Option (List OutboxMessage))
        → parsed ≡ none
        → Hoare slots
            (λ s. Damaged device T ms s)
            (λ r s. (r ≡ ms) × Holds device T ms s)
            (λ _ s. Kept device T ms s)
            (use_main storage device raw parsed)
    unfolding use_main
    use_main-Damaged raw parsed e = rw e (
        Hoare-bind (λ text s. (text ≡ s.backup_text) × Damaged device T ms s) _ _
          (read_item-Rule keychain backup
            (λ s d. inr (record { text = d.text; storable = d.storable })))
          (λ text.
            Hoare-bind (λ r s. (r ≡ some ms) × Damaged device T ms s) _ _
              (parse_now-Rule text (λ r s. (r ≡ some ms) × Damaged device T ms s)
                (λ now s t p. (
                  rw (p.0 ∙ p.1.text)
                      (parse_messages-stored device json now ms (p.1.storable now t)),
                  p.1,
                )))
              (λ recovered. Hoare-fact _ _ (λ found. rw found (use_backup-Rule ms refl)))))

    kept : (s : Slots) → Recoverable device T ms s → Kept device T ms s
    kept s (inl h) = inl h
    kept s (inr d) = inr (record { text = d.text; storable = d.storable })

    Parsed : Option Str → Option (List OutboxMessage) → Slots → Type 0
    Parsed raw parsed s =
        (((raw ≡ stored device ms) × (parsed ≡ some ms)) × Holds device T ms s)
        ⊎ ((parsed ≡ none) × Damaged device T ms s)

    Parsed-main :
        (now : ℤ) (s : Slots) (raw : Option Str)
        → T now
        → raw ≡ s.main_text
        → Recoverable device T ms s
        → Parsed raw (parse_messages device now raw) s
    unfolding Parsed
    Parsed-main now s raw t e (inl h) =
        let e' : raw ≡ stored device ms = e ∙ h.text in
        inl ((e', rw e' (parse_messages-stored device json now ms (h.storable now t))), h)
    Parsed-main now s raw t e (inr d) = inr (rw e (d.unreadable now t), d)

    -- If the main entry has at most 40 messages, none older than a week at any time the clock may show,
    -- or cannot be read and the backup has such messages, one at least, reading finds them, and
    -- afterwards the main entry has them. Where a rejected call stops the reading, the main entry or the
    -- backup has them. A rejected call may leave anything in its own entry.
    pub read_all_unlocked-Hoare :
        Hoare slots
          (λ s. Recoverable device T ms s)
          (λ r s. (r ≡ ms) × Holds device T ms s)
          (λ _ s. Kept device T ms s)
          (read_all_unlocked storage device)
    unfolding read_all_unlocked Parsed
    read_all_unlocked-Hoare =
        Hoare-bind (λ raw s. (raw ≡ s.main_text) × Recoverable device T ms s) _ _
          (read_item-Rule keychain main (λ s r. kept s r))
          (λ raw.
            Hoare-bind (λ parsed s. Parsed raw parsed s) _ _
              (parse_now-Rule raw (λ parsed s. Parsed raw parsed s)
                (λ now s t p. Parsed-main now s raw t p.0 p.1))
              (λ parsed.
                Hoare-either _ (Hoare-fact _ _ (λ f. use_main-Holds raw parsed f.0 f.1))
                  (Hoare-fact _ _ (λ f. use_main-Damaged raw parsed f))))
