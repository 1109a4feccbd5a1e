-- ===== src/ChatOutbox/Operations/Serving.antt =====
-- The requests of the outbox, one by one. mobile/src/shared/lib/chatOutbox.ts.
use etkin_link.Base.{
  ◌≡◌, refl, Bool, true, false, not, List, [], ◌∷◌, ◌++◌, none, some, inl, inr, if◌then◌else◌, keep,
  map, All-append, All-keep_same, Bool-cases, arith,
}
use etkin_link.Int.{ℤ, pos, ◌+ℤ◌}
use etkin_link.Text.{str_eq}
use etkin_link.Effect.{attempt, pure, ◌>>=◌}
use etkin_link.Effect.Hoare.{Hoare, Hoare-pure, Hoare-bind, Hoare-given, Hoare-fact}
use etkin_link.ChatOutbox.Message.{
  OutboxMessage, Count, Device, fit_storage_limit, next_count, at_least, retry_delay_ms,
  max_attempts,
}
use etkin_link.ChatOutbox.Message.Laws.{IsJson, IsRecent}
use etkin_link.ChatOutbox.Storage.{
  main, backup, Storage, Slots, IsKeychain, read_clock-Rule, delete_item-Rule,
}
use etkin_link.ChatOutbox.Operations.{
  has_id, same_message, marked, write_all_unlocked, read_all_unlocked, append_new, iso_now,
  dead_letter_time, delete_both, purge_all_unlocked, enqueue_outbox, remove_from_outbox,
  purge_owner_unlocked, mark_attempt,
}
use etkin_link.ChatOutbox.Operations.Reading.{Holds, Recoverable}
use etkin_link.ChatOutbox.Operations.Queue.{
  Request, enqueue, remove_message, purge_owner, purge_all, mark, serve, Applies, DeadTime,
}
use etkin_link.ChatOutbox.Operations.Refinement.{
  IsFresh, HoldsResult, Interrupted, marked-IsRecent, write-Result, after_read,
}

module _ {W : Type 0} {storage : Storage W} {slots : W → Slots} {T : ℤ → Type 0}
    (keychain : IsKeychain storage slots T) (device : Device) (json : IsJson device) where
  append_new_known :
      (message : OutboxMessage) (ms : List OutboxMessage)
      → has_id message.client_message_id ms ≡ true
      → append_new storage device message ms ≡ pure tt
  unfolding append_new
  append_new_known message ms e = rw e refl

  append_new_other :
      (message : OutboxMessage) (ms : List OutboxMessage)
      → has_id message.client_message_id ms ≡ false
      → append_new storage device message ms
        ≡ write_all_unlocked storage device (ms ++ message ∷ [])
  unfolding append_new
  append_new_other message ms e = rw e refl

  enqueue-Hoare :
      (message : OutboxMessage) (ms : List OutboxMessage)
      → IsFresh device T (enqueue message)
      → Hoare slots
          (λ s. Recoverable device T ms s)
          (λ _ s. HoldsResult device T (enqueue message) ms s)
          (λ _ s. Interrupted device T (enqueue message) ms s)
          (enqueue_outbox storage device message)
  unfolding enqueue_outbox
  enqueue-Hoare message ms fresh =
      after_read keychain device (enqueue message) ms _ json
        (elim (Bool-cases (has_id message.client_message_id ms)) [
          | inl known ↦
              rw (append_new_known message ms known) (Hoare-pure tt (λ s h. (ms, rw known refl, h)))
          | inr new ↦ rw (append_new_other message ms new) (
              Hoare-given _ (λ s h.
                write-Result keychain device (enqueue message) ms (ms ++ message ∷ [])
                  (λ now t.
                    All-append (IsRecent device now) ms (message ∷ []) (h.storable now t).1
                      (fresh now t, tt))
                  (rw new refl)))
        ])

  removal-Hoare :
      (r : Request) (p : OutboxMessage → Bool) (ms : List OutboxMessage)
      → Applies device T r ms (fit_storage_limit device (keep p ms))
      → Hoare slots
          (λ s. Recoverable device T ms s)
          (λ _ s. HoldsResult device T r ms s)
          (λ _ s. Interrupted device T r ms s)
          (read_all_unlocked storage device >>= λ current.
            write_all_unlocked storage device (keep p current))
  removal-Hoare r p ms applies = after_read keychain device r ms _ json (
      Hoare-given _ (λ s h.
        write-Result keychain device r ms (keep p ms)
          (λ now t. All-keep_same (IsRecent device now) p ms (h.storable now t).1) applies))

  dead_letter_time-Hoare :
      (attempt : Count) {P Stop : Slots → Type 0}
      → Hoare slots P
          (λ dead s. DeadTime device T (at_least device attempt max_attempts) dead × P s)
          (λ _ s. Stop s)
          (dead_letter_time storage device attempt)
  unfolding dead_letter_time iso_now
  dead_letter_time-Hoare attempt {P} {Stop} = by_test (at_least device attempt max_attempts)
    where
      by_test :
          (b : Bool)
          → Hoare slots P
              (λ dead s. DeadTime device T b dead × P s)
              (λ _ s. Stop s)
              (if b then iso_now storage device else pure none)
      by_test true =
          Hoare-bind _ _ _ (read_clock-Rule keychain)
            (λ now. Hoare-pure (some (device.to_iso_string now)) (λ s p. ((now, p.0, refl), p.1)))
      by_test false = Hoare-pure none (λ s p. (refl, p))

  mark-Hoare :
      (message : OutboxMessage) (ms : List OutboxMessage)
      → Hoare slots
          (λ s. Recoverable device T ms s)
          (λ _ s. HoldsResult device T (mark message) ms s)
          (λ _ s. Interrupted device T (mark message) ms s)
          (mark_attempt storage device message)
  unfolding mark_attempt
  mark-Hoare message ms =
      let attempt = next_count device message.attempt in
      let delay = retry_delay_ms device attempt in
      after_read keychain device (mark message) ms _ json (
        Hoare-bind
          (λ dead s.
            DeadTime device T (at_least device attempt max_attempts) dead × Holds device T ms s)
          _ _ (dead_letter_time-Hoare attempt)
          (λ dead. Hoare-fact _ _ (λ d.
            Hoare-bind (λ later s. T later × Holds device T ms s) _ _ (read_clock-Rule keychain)
              (λ later.
                let next = device.to_iso_string (later +ℤ pos delay) in
                Hoare-fact _ _ (λ t. Hoare-given _ (λ s h.
                  write-Result keychain device (mark message) ms
                    (map (marked message attempt dead next) ms)
                    (λ now t'.
                      marked-IsRecent device now message attempt dead next ms (h.storable now t').1)
                    (dead, later, d, t, refl)))))))

  purge_all-Hoare :
      (ms : List OutboxMessage)
      → Hoare slots
          (λ s. Recoverable device T ms s)
          (λ _ s. HoldsResult device T purge_all ms s)
          (λ _ s. Interrupted device T purge_all ms s)
          (purge_all_unlocked storage device)
  unfolding purge_all_unlocked delete_both
  purge_all-Hoare ms =
      Hoare-bind (λ _ s. HoldsResult device T purge_all ms s) _ _
        (delete_item-Rule keychain main (λ s. HoldsResult device T purge_all ms s)
          (λ s p left. inr (inr (inr refl)))
          (λ s p. ([], refl, record { text = refl; storable = λ now t. (omega arith, tt) })))
        (λ _.
          delete_item-Rule keychain backup (λ s. HoldsResult device T purge_all ms s)
            (λ s p left. inr (inl (p.0, p.1, record { text = p.2.text; storable = p.2.storable })))
            (λ s p. (p.0, p.1, record { text = p.2.text; storable = p.2.storable })))

  -- Each request reads the messages, if the main entry has them or cannot be read and the backup has
  -- them, at most 40 and none older than a week at any time the clock may show; a message to be queued
  -- is no older either. A request that returns has had its effect on them: the message is appended
  -- unless its identifier is known, the matching ones are removed, or the attempt is marked, within the
  -- limit of the storage; and the main entry has the result. Where a rejected call stops it, the main entry
  -- or the backup has the messages from before, or the main entry has the result, or there was no stored
  -- text or no message left to write. A rejected call may leave anything in its own entry.
  pub serve-Hoare :
      (r : Request) (ms : List OutboxMessage)
      → IsFresh device T r
      → Hoare slots
          (λ s. Recoverable device T ms s)
          (λ _ s. HoldsResult device T r ms s)
          (λ _ s. Interrupted device T r ms s)
          (serve storage device r)
  unfolding serve remove_from_outbox purge_owner_unlocked
  serve-Hoare (enqueue message) ms fresh = enqueue-Hoare message ms fresh
  serve-Hoare (remove_message owner_id id) ms fresh =
      removal-Hoare (remove_message owner_id id) (λ m. not (same_message owner_id id m)) ms refl
  serve-Hoare (purge_owner owner_id) ms fresh =
      removal-Hoare (purge_owner owner_id) (λ m. not (str_eq m.owner_id owner_id)) ms refl
  serve-Hoare purge_all ms fresh = purge_all-Hoare ms
  serve-Hoare (mark message) ms fresh = mark-Hoare message ms
