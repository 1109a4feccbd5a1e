-- ===== src/ChatOutbox/Flush.antt =====
-- Sending what the outbox has, and purging it: mobile/src/shared/lib/chatOutbox.ts from line 159. The
-- memory of the app is part of the world, since purges may run while a message is on its way. The
-- sender and the keychain are arguments.
pub mod Protocol
pub mod Purges
mod Tests
use etkin_link.Base.{
  ℕ, ◌+◌, Bool, true, false, not, ◌&&◌, ◌==◌, List, [], ◌∷◌, Option, none, some, if◌then◌else◌,
  keep, any,
}
use etkin_link.Int.{ℤ, leb_ℤ}
use etkin_link.Text.{Str, str_eq}
use etkin_link.Effect.{Result, ok, err, Act, pure, throw, call, attempt, ◌>>=◌, ◌>>◌}
use etkin_link.ChatOutbox.Message.{OutboxMessage, Device}
use etkin_link.ChatOutbox.Storage.{Storage, Step, Rejected, rejected}
use etkin_link.ChatOutbox.Operations.{
  is_set, list_all_outbox, remove_from_outbox, mark_attempt, purge_owner_unlocked,
  purge_all_unlocked,
}

pub record Memory : Type 0 where
  pub owner_purge_generations : List (Str × ℕ)
  pub all_purge_generation : ℕ
  pub active_flushes : List Str

pub record App (W : Type 0) : Type 0 where
  pub world : W
  pub memory : Memory

-- `map.get(key) ?? 0`
pub generation_of : Str → List (Str × ℕ) → ℕ
generation_of owner_id [] = 0
generation_of owner_id ((o, n) ∷ m) = if str_eq o owner_id then n else generation_of owner_id m

pub set_generation : Str → ℕ → List (Str × ℕ) → List (Str × ℕ)
set_generation owner_id n [] = (owner_id, n) ∷ []
set_generation owner_id n ((o, k) ∷ m) =
    if str_eq o owner_id then (o, n) ∷ m else (o, k) ∷ set_generation owner_id n m

-- What a flush does, each with its outcome.
pub data Event : Type 0 where
  generations : ℕ → ℕ → Event
  clock : ℤ → Event
  listed : Result Rejected (List OutboxMessage) → Event
  send : OutboxMessage → Bool → Event
  removed : Str → Str → Result Rejected (Unit {0}) → Event
  marked : OutboxMessage → Result Rejected (Unit {0}) → Event
  purged : Result Rejected (Unit {0}) → Event

abbrev pub Flush : Type 0 → Type 0 → Type 0
Flush W A = Act (App W) Event Rejected A

-- An operation of the outbox. Other code runs while the sender does.
pub perform : {W A : Type 0} → (Result Rejected A → Event) → Step W A → Flush W A
perform entry m v = let (r, l, w) = m v.world in (r, entry r ∷ [], record v { world = w })

pub set_memory : {W : Type 0} → (Memory → Memory) → Flush W (Unit {0})
set_memory f v = (ok tt, [], record v { memory = f v.memory })

-- `!message.deadLetteredAt && new Date(message.nextAttemptAt).getTime() <= now`
pub is_due : Device → ℤ → OutboxMessage → Bool
unfolding is_set
is_due device now m =
    not (is_set m.dead_lettered_at)
    && elim (device.date_parse m.next_attempt_at) [ none ↦ false | some t ↦ leb_ℤ t now ]

abbrev pub same_generations : ℕ × ℕ → ℕ × ℕ → Bool
same_generations (a, b) (c, d) = a == c && b == d

module _ {W : Type 0} (storage : Storage W) (device : Device)
    (sender : OutboxMessage → App W → Bool × App W) (owner_id : Str) where
  pub read_generations : Flush W (ℕ × ℕ)
  unfolding generation_of
  read_generations =
      call
        (λ v. (
          (generation_of owner_id v.memory.owner_purge_generations, v.memory.all_purge_generation),
          v,
        ))
        (λ g. generations g.0 g.1)

  -- A promise of the sender that is rejected is `false`.
  pub sent_or_throw : Bool → Flush W (Unit {0})
  sent_or_throw true = pure tt
  sent_or_throw false = throw rejected

  pub send_message : OutboxMessage → Flush W (Unit {0})
  unfolding perform sent_or_throw
  send_message m = do
    sent ← call (sender m) (send m)
    sent_or_throw sent
    perform (removed owner_id m.client_message_id)
        (remove_from_outbox storage device owner_id m.client_message_id)

  -- The end of the loop's body; `rest` is what follows.
  pub after_send :
      OutboxMessage → Flush W (Unit {0}) → Result Rejected (Unit {0}) → Flush W (Unit {0})
  unfolding perform
  after_send m rest (ok u) = rest
  after_send m rest (err e) = perform (marked m) (mark_attempt storage device m)

  pub try_message : OutboxMessage → Flush W (Unit {0}) → Flush W (Unit {0})
  unfolding send_message after_send
  try_message m rest = do outcome ← attempt (send_message m); after_send m rest outcome

  pub send_pending : ℕ × ℕ → List OutboxMessage → Flush W (Unit {0})
  unfolding read_generations try_message
  send_pending start [] = pure tt
  send_pending start (m ∷ ms) = do
    current ← read_generations
    (if same_generations start current then try_message m (send_pending start ms) else pure tt)

  pub flush_body : Flush W (Unit {0})
  unfolding read_generations send_pending perform is_due
  flush_body = do
    start ← read_generations
    now ← call (λ v. let (t, w) = storage.now v.world in (t, record v { world = w })) clock
    messages ← perform listed (list_all_outbox storage device owner_id)
    send_pending start (keep (is_due device now) messages)

  pub rethrow : Result Rejected (Unit {0}) → Flush W (Unit {0})
  rethrow (ok u) = pure tt
  rethrow (err e) = throw e

  pub begin_flush : Memory → Memory
  begin_flush memory = record memory { active_flushes = owner_id ∷ memory.active_flushes }

  pub end_flush : Memory → Memory
  end_flush memory = record memory {
    active_flushes = keep (λ o. not (str_eq o owner_id)) memory.active_flushes;
  }

  pub new_flush : Flush W (Unit {0})
  unfolding set_memory begin_flush end_flush flush_body rethrow
  new_flush = do
    set_memory begin_flush
    outcome ← attempt flush_body
    set_memory end_flush
    rethrow outcome

  -- Where a flush of this owner is under way its promise is the answer, which is left out here.
  pub flush_all_outbox : Flush W (Unit {0})
  unfolding new_flush
  flush_all_outbox v =
      if any (λ o. str_eq o owner_id) v.memory.active_flushes then pure tt v else new_flush v

  pub count_purge : Memory → Memory
  unfolding generation_of set_generation
  count_purge memory = record memory {
    owner_purge_generations =
        set_generation owner_id (generation_of owner_id memory.owner_purge_generations + 1)
          memory.owner_purge_generations;
  }

  pub purge_outbox_for_owner : Flush W (Unit {0})
  unfolding set_memory perform count_purge
  purge_outbox_for_owner = do
    set_memory count_purge
    perform purged (purge_owner_unlocked storage device owner_id)

  pub count_purge_of_all : Memory → Memory
  count_purge_of_all memory = record memory {
    all_purge_generation = memory.all_purge_generation + 1;
  }

  pub purge_all_outbox : Flush W (Unit {0})
  unfolding set_memory perform count_purge_of_all
  purge_all_outbox = do
    set_memory count_purge_of_all
    perform purged (purge_all_unlocked storage device)
