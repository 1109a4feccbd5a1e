-- ===== src/ChatOutbox/Operations/Queue.antt =====
-- `withStorageLock` of mobile/src/shared/lib/chatOutbox.ts: the operations run one after another, in
-- the order of their calls, also after one that was rejected.
use etkin_link.Base.{
  Bool, true, false, not, List, [], ◌∷◌, ◌++◌, Option, none, some, if◌then◌else◌, keep, map, ◌≡◌,
}
use etkin_link.Int.{ℤ, pos, ◌+ℤ◌}
use etkin_link.Text.{Str, str_eq}
use etkin_link.Effect.{Result, attempt, pure, ◌>>=◌}
use etkin_link.ChatOutbox.Message.{
  OutboxMessage, Device, fit_storage_limit, next_count, at_least, retry_delay_ms, max_attempts,
}
use etkin_link.ChatOutbox.Storage.{Storage, Step, Slots, Rejected}
use etkin_link.ChatOutbox.Operations.Reading.{Recoverable}
use etkin_link.ChatOutbox.Operations.{
  has_id, same_message, marked, enqueue_outbox, remove_from_outbox, purge_owner_unlocked,
  purge_all_unlocked, mark_attempt,
}

-- The calls that change the storage.
pub data Request : Type 0 where
  enqueue : OutboxMessage → Request
  remove_message : Str → Str → Request
  purge_owner : Str → Request
  purge_all : Request
  mark : OutboxMessage → Request

module _ {W : Type 0} (storage : Storage W) (device : Device) where
  -- The operation that a call queues.
  unfoldable pub serve : Request → Step W (Unit {0})
  serve (enqueue message) = enqueue_outbox storage device message
  serve (remove_message owner_id id) = remove_from_outbox storage device owner_id id
  serve (purge_owner owner_id) = purge_owner_unlocked storage device owner_id
  serve purge_all = purge_all_unlocked storage device
  serve (mark message) = mark_attempt storage device message

  unfoldable pub run_queue : List Request → Step W (List (Result Rejected (Unit {0})))
  unfolding serve
  run_queue [] = pure []
  run_queue (r ∷ rs) = do
    outcome ← attempt (serve r)
    outcomes ← run_queue rs
    pure (outcome ∷ outcomes)

module _ (device : Device) (T : ℤ → Type 0) where
  -- A message is dead from its fifth attempt on.
  abbrev pub DeadTime : Bool → Option Str → Type 0
  DeadTime true dead = (now : ℤ) × T now × (dead ≡ some (device.to_iso_string now))
  DeadTime false dead = dead ≡ none

  -- What a request does to the list of messages, at a time of T.
  abbrev pub Applies : Request → List OutboxMessage → List OutboxMessage → Type 0
  Applies (enqueue message) ms new = new ≡ (
      if has_id message.client_message_id ms
      then ms
      else fit_storage_limit device (ms ++ message ∷ []))
  Applies (remove_message owner_id id) ms new =
      new ≡ fit_storage_limit device (keep (λ m. not (same_message owner_id id m)) ms)
  Applies (purge_owner owner_id) ms new =
      new
      ≡ fit_storage_limit device (keep (λ (m : OutboxMessage). not (str_eq m.owner_id owner_id)) ms)
  Applies purge_all ms new = new ≡ []
  Applies (mark message) ms new =
      (dead : Option Str) × (later : ℤ) × DeadTime
        (at_least device (next_count device message.attempt) max_attempts) dead
      × T later
      × (new
          ≡ fit_storage_limit device (
              map
                (marked message (next_count device message.attempt) dead (
                  device.to_iso_string
                    (later +ℤ pos (retry_delay_ms device (next_count device message.attempt)))))
                ms))

-- What a queue of requests does to the list, when the entries are s in the end: if none is rejected,
-- each has its effect, and the messages can be found.
module _ (device : Device) (T : ℤ → Type 0) (s : Slots) where
  pub data Served
      : List OutboxMessage → List Request → List (Result Rejected (Unit {0})) → Type 0 where
    done : (ms : List OutboxMessage) → Recoverable device T ms s → Served ms [] []
    applied :
        {ms new : List OutboxMessage} {r : Request} {rs : List Request}
        {outcomes : List (Result Rejected (Unit {0}))}
        → Applies device T r ms new
        → Served new rs outcomes
        → Served ms (r ∷ rs) (Result.ok tt ∷ outcomes)
    interrupted :
        {ms : List OutboxMessage} {r : Request} {rs : List Request} {e : Rejected}
        {outcomes : List (Result Rejected (Unit {0}))}
        → Served ms (r ∷ rs) (Result.err e ∷ outcomes)
