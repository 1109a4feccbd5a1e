-- ===== src/ChatOutbox/Operations.antt =====
-- The operations of the outbox over the secure storage: mobile/src/shared/lib/chatOutbox.ts, as each
-- runs under the lock of the storage. The keychain and the platform are arguments.
pub mod Reading
pub mod Missing
pub mod Writing
pub mod Queue
pub mod Refinement
pub mod Serving
pub mod Service
mod Tests
use etkin_link.Base.{
  ℕ, suc, Bool, true, false, not, ◌&&◌, ◌||◌, List, [], ◌∷◌, ◌++◌, Option, none, some,
  if◌then◌else◌, keep, any, map,
}
use etkin_link.Int.{ℤ, pos, ◌+ℤ◌}
use etkin_link.Text.{Str, str_eq}
use etkin_link.Effect.{pure, throw, call, ◌>>=◌, ◌>>◌}
use etkin_link.ChatOutbox.Message.{
  OutboxKind, room, direct, Count, OutboxMessage, Device, parse_messages, serialize,
  fit_storage_limit, next_count, at_least, retry_delay_ms, max_attempts,
}
use etkin_link.ChatOutbox.Storage.{
  Key, main, backup, Storage, Step, read_item, write_item, delete_item, read_clock,
}

-- A text that is missing or empty is false.
unfoldable pub is_set : Option Str → Bool
is_set none = false
is_set (some []) = false
is_set (some (c ∷ text)) = true

-- `raw && JSON.stringify(parsed) !== raw`
pub differs : Str → Option Str → Bool
differs text none = false
differs text (some []) = false
differs text (some (c ∷ raw)) = not (str_eq text (c ∷ raw))

pub same_message : Str → Str → OutboxMessage → Bool
same_message owner_id client_message_id m =
    str_eq m.owner_id owner_id && str_eq m.client_message_id client_message_id

pub has_id : Str → List OutboxMessage → Bool
has_id client_message_id current =
    any (λ (item : OutboxMessage). str_eq item.client_message_id client_message_id) current

pub same_kind : OutboxKind → OutboxKind → Bool
same_kind room room = true
same_kind direct direct = true
same_kind _ _ = false

pub marked : OutboxMessage → Count → Option Str → Str → OutboxMessage → OutboxMessage
marked message attempt dead next item =
    if same_message message.owner_id message.client_message_id item
    then record item { attempt = attempt; next_attempt_at = next; dead_lettered_at = dead }
    else item

module _ {W : Type 0} (storage : Storage W) (device : Device) where
  pub delete_both : Step W (Unit {0})
  delete_both = do delete_item storage main; delete_item storage backup

  pub keep_previous : Option Str → Step W (Unit {0})
  keep_previous none = pure tt
  keep_previous (some []) = pure tt
  keep_previous (some (c ∷ previous)) = write_item storage backup (c ∷ previous)

  pub replace_main : Str → Step W (Unit {0})
  unfolding keep_previous
  replace_main text = do
    previous ← read_item storage main
    keep_previous previous
    write_item storage main text
    delete_item storage backup

  pub write_fitted : List OutboxMessage → Step W (Unit {0})
  unfolding delete_both replace_main
  write_fitted [] = delete_both
  write_fitted (m ∷ ms) = replace_main (serialize device (m ∷ ms))

  pub write_all_unlocked : List OutboxMessage → Step W (Unit {0})
  unfolding write_fitted
  write_all_unlocked messages = write_fitted (fit_storage_limit device messages)

  -- `parseMessages`, at the time that the clock shows; here it is looked at for every text.
  pub parse_now : Option Str → Step W (Option (List OutboxMessage))
  parse_now raw = do now ← read_clock storage; pure (parse_messages device now raw)

  pub use_backup : Option (List OutboxMessage) → Step W (List OutboxMessage)
  unfolding delete_both
  use_backup (some (m ∷ ms)) = do
    write_item storage main (serialize device (m ∷ ms))
    delete_item storage backup
    pure (m ∷ ms)
  use_backup (some []) = do delete_both; pure []
  use_backup none = do delete_both; pure []

  pub rewrite_if : Bool → List OutboxMessage → Step W (Unit {0})
  rewrite_if changed parsed = if changed then write_all_unlocked parsed else pure tt

  pub use_main : Option Str → Option (List OutboxMessage) → Step W (List OutboxMessage)
  unfolding use_backup rewrite_if
  use_main raw (some parsed) = do
    rewrite_if (differs (serialize device parsed) raw) parsed
    pure parsed
  use_main raw none = do
    text ← read_item storage backup
    recovered ← parse_now text
    use_backup recovered

  pub read_all_unlocked : Step W (List OutboxMessage)
  unfolding use_main
  read_all_unlocked = do raw ← read_item storage main; parsed ← parse_now raw; use_main raw parsed

  pub append_new : OutboxMessage → List OutboxMessage → Step W (Unit {0})
  unfolding has_id
  append_new message current =
      if has_id message.client_message_id current
      then pure tt
      else write_all_unlocked (current ++ message ∷ [])

  pub enqueue_outbox : OutboxMessage → Step W (Unit {0})
  unfolding append_new
  enqueue_outbox message = do current ← read_all_unlocked; append_new message current

  pub remove_from_outbox : Str → Str → Step W (Unit {0})
  remove_from_outbox owner_id client_message_id = do
    current ← read_all_unlocked
    write_all_unlocked (keep (λ m. not (same_message owner_id client_message_id m)) current)

  pub list_outbox : Str → OutboxKind → Str → Step W (List OutboxMessage)
  list_outbox owner_id kind context_id = do
    current ← read_all_unlocked
    pure (
        keep
          (λ (m : OutboxMessage).
            str_eq m.owner_id owner_id && (same_kind m.kind kind && str_eq m.context_id context_id))
          current)

  pub list_dead_letters : Str → OutboxKind → Str → Step W (List OutboxMessage)
  list_dead_letters owner_id kind context_id = do
    listed ← list_outbox owner_id kind context_id
    pure (keep (λ (m : OutboxMessage). is_set m.dead_lettered_at) listed)

  -- The storage's part of `purgeOutboxForOwner` and of `purgeAllOutbox`.
  pub purge_owner_unlocked : Str → Step W (Unit {0})
  purge_owner_unlocked owner_id = do
    current ← read_all_unlocked
    write_all_unlocked (keep (λ (m : OutboxMessage). not (str_eq m.owner_id owner_id)) current)

  pub purge_all_unlocked : Step W (Unit {0})
  unfolding delete_both
  purge_all_unlocked = delete_both

  unfoldable pub list_all_outbox : Str → Step W (List OutboxMessage)
  list_all_outbox owner_id = do
    current ← read_all_unlocked
    pure (keep (λ (m : OutboxMessage). str_eq m.owner_id owner_id) current)

  pub iso_now : Step W (Option Str)
  iso_now = do now ← read_clock storage; pure (some (device.to_iso_string now))

  pub dead_letter_time : Count → Step W (Option Str)
  unfolding iso_now
  dead_letter_time attempt = if at_least device attempt max_attempts then iso_now else pure none

  pub mark_attempt : OutboxMessage → Step W (Unit {0})
  unfolding dead_letter_time marked
  mark_attempt message = do
    current ← read_all_unlocked
    let attempt = next_count device message.attempt
    dead ← dead_letter_time attempt
    now ← read_clock storage
    let next = device.to_iso_string (now +ℤ pos (retry_delay_ms device attempt))
    write_all_unlocked (map (marked message attempt dead next) current)
