-- ===== src/ChatOutbox/Flush/Protocol.antt =====
-- The order of what a flush does: `flushAllOutbox` of mobile/src/shared/lib/chatOutbox.ts.
use etkin_link.Base.{
  ℕ, ◌≡◌, refl, Bool, true, false, List, [], ◌∷◌, Option, none, some, if◌then◌else◌, keep, any,
  Bool-cases, inl, inr,
}
use etkin_link.Int.{ℤ}
use etkin_link.Text.{Str, str_eq}
use etkin_link.Effect.{Result, ok, err, ◌>>=◌}
use etkin_link.Effect.Protocol.{
  Follows, Ends, Triple, Triple-pure, Triple-throw, Triple-call, Triple-if, Triple-weaken,
  Triple-attempt, Triple-bind,
}
use etkin_link.ChatOutbox.Message.{OutboxMessage, Device}
use etkin_link.ChatOutbox.Storage.{Storage, Step, Rejected, rejected}
use etkin_link.ChatOutbox.Operations.{list_all_outbox, remove_from_outbox, mark_attempt}
use etkin_link.ChatOutbox.Flush.{
  App, Memory, Event, generations, clock, listed, send, removed, marked, Flush, perform, set_memory,
  is_due, same_generations, read_generations, sent_or_throw, send_message, after_send, try_message,
  send_pending, flush_body, rethrow, begin_flush, end_flush, new_flush, flush_all_outbox,
}

-- Where a flush is: before its list; between two messages, with those left; where a purge is known not
-- to have come since the start; after a message was sent; after one failed; at its end.
pub data Stage : Type 0 where
  beginning : Option (ℕ × ℕ) → Option ℤ → Stage
  between checked sent failed : ℕ × ℕ → List OutboxMessage → Stage
  over : Stage

abbrev pub observe : Device → Stage → Event → Stage
observe device (beginning none now) (generations a b) = beginning (some (a, b)) now
observe device (beginning start now) (clock t) = beginning start (some t)
observe device (beginning (some start) (some now)) (listed (ok ms)) =
    between start (keep (is_due device now) ms)
observe device (between start ms) (generations a b) =
    if same_generations start (a, b) then checked start ms else over
observe device (checked start ms) (send m true) = sent start ms
observe device (checked start ms) (send m false) = failed start ms
observe device (sent start (m ∷ ms)) (removed owner_id id (ok u)) = between start ms
observe device (sent start ms) (removed owner_id id (err e)) = failed start ms
observe device (failed start ms) (marked m outcome) = over
observe device stage event = over

-- What may come in a stage.
abbrev pub Allowed : Str → Stage → Event → Type 0
Allowed owner (checked start (next ∷ ms)) (send m done) = m ≡ next
Allowed owner (sent start (next ∷ ms)) (removed owner_id id outcome) =
    (owner_id ≡ owner) × (id ≡ next.client_message_id)
Allowed owner (failed start (next ∷ ms)) (marked m outcome) = m ≡ next
Allowed owner (beginning none none) (generations a b) = Unit
Allowed owner (beginning start none) (clock t) = Unit
Allowed owner (beginning (some start) (some now)) (listed outcome) = Unit
Allowed owner (between start (m ∷ ms)) (generations a b) = Unit
Allowed owner stage event = ⊥

module _ {W : Type 0} (device : Device) (owner : Str) where
  abbrev Runs :
      (A : Type 0)
      → (Stage → Type 0)
      → (A → Stage → Type 0)
      → (Rejected → Stage → Type 0)
      → Flush W A
      → Type 0
  Runs A Pre Post Fail m = Triple (Allowed owner) (observe device) Pre Post Fail m

  -- An operation is one event, whatever it does to the storage.
  perform-Triple :
      {A : Type 0} {Pre : Stage → Type 0} (Post : A → Stage → Type 0)
      (Fail : Rejected → Stage → Type 0) (entry : Result Rejected A → Event) (m : Step W A)
      → ((r : Result Rejected A) (g : Stage)
          → Pre g
          → Allowed owner g (entry r) × Ends Post Fail r (observe device g (entry r)))
      → Runs A Pre Post Fail (perform entry m)
  unfolding perform
  perform-Triple Post Fail entry m h = record {
    at = λ v g p. let (may, ends) = h (m v.world).0 g p in ((may, tt), ends);
  }

  set_memory-Triple :
      {Pre : Stage → Type 0} {Fail : Rejected → Stage → Type 0} (f : Memory → Memory)
      → Runs (Unit {0}) Pre (λ _ g. Pre g) Fail (set_memory f)
  unfolding set_memory
  set_memory-Triple f = record { at = λ v g p. (tt, p) }

module _ {W : Type 0} (storage : Storage W) (device : Device)
    (sender : OutboxMessage → App W → Bool × App W) (owner : Str) where
  Any : Stage → Type 0
  Any g = Unit

  read_generations-Triple :
      {Pre : Stage → Type 0} (Post : ℕ × ℕ → Stage → Type 0) {Fail : Rejected → Stage → Type 0}
      → ((a b : ℕ) (g : Stage)
          → Pre g
          → Allowed owner g (generations a b) × Post (a, b) (observe device g (generations a b)))
      → Runs device owner (ℕ × ℕ) Pre Post Fail (read_generations storage device sender owner)
  unfolding read_generations
  read_generations-Triple Post h =
      Triple-call (λ _. Unit) _ _ (λ _. tt) (λ gens g _ p. h gens.0 gens.1 g p)

  sent_or_throw-Triple :
      (start : ℕ × ℕ) (m : OutboxMessage) (ms : List OutboxMessage) (done : Bool)
      → Runs device owner
          (Unit {0})
          (λ g. g ≡ (if done then sent start (m ∷ ms) else failed start (m ∷ ms)))
          (λ _ g. g ≡ sent start (m ∷ ms))
          (λ _ g. g ≡ failed start (m ∷ ms))
          (sent_or_throw storage device sender owner done)
  unfolding sent_or_throw
  sent_or_throw-Triple start m ms true = Triple-pure tt (λ g e. e)
  sent_or_throw-Triple start m ms false = Triple-throw rejected (λ g e. e)

  send_message-Triple :
      (start : ℕ × ℕ) (m : OutboxMessage) (ms : List OutboxMessage)
      → Runs device owner
          (Unit {0})
          (λ g. g ≡ checked start (m ∷ ms))
          (λ _ g. g ≡ between start ms)
          (λ _ g. g ≡ failed start (m ∷ ms))
          (send_message storage device sender owner m)
  unfolding send_message
  send_message-Triple start m ms =
      Triple-bind (λ done g. g ≡ (if done then sent start (m ∷ ms) else failed start (m ∷ ms))) _ _
        (Triple-call (λ _. Unit) _ _ (λ _. tt) (λ done g _ e. rw e (refl, seen done)))
        (λ done.
          Triple-bind (λ _ g. g ≡ sent start (m ∷ ms)) _ _ (sent_or_throw-Triple start m ms done)
            (λ _.
              perform-Triple device owner (λ _ g. g ≡ between start ms)
                (λ _ g. g ≡ failed start (m ∷ ms)) (removed owner m.client_message_id)
                (remove_from_outbox storage device owner m.client_message_id)
                (λ r g e. rw e ((refl, refl), ended r))))
    where
      seen :
          (done : Bool)
          → observe device (checked start (m ∷ ms)) (send m done)
            ≡ (if done then sent start (m ∷ ms) else failed start (m ∷ ms))
      seen true = refl
      seen false = refl

      ended :
          (r : Result Rejected (Unit {0}))
          → Ends
              (λ _ g. g ≡ between start ms)
              (λ _ g. g ≡ failed start (m ∷ ms))
              r
              (observe device (sent start (m ∷ ms)) (removed owner m.client_message_id r))
      ended (ok u) = refl
      ended (err e) = refl

  try_message-Triple :
      (start : ℕ × ℕ) (m : OutboxMessage) (ms : List OutboxMessage) (rest : Flush W (Unit {0}))
      → Runs device owner (Unit {0}) (λ g. g ≡ between start ms) (λ _ g. Any g) (λ _ g. Any g) rest
      → Runs device owner
          (Unit {0})
          (λ g. g ≡ checked start (m ∷ ms))
          (λ _ g. Any g)
          (λ _ g. Any g)
          (try_message storage device sender owner m rest)
  unfolding try_message Any after_send
  try_message-Triple start m ms rest h =
      Triple-bind
        (λ outcome g.
          Ends (λ _ g. g ≡ between start ms) (λ _ g. g ≡ failed start (m ∷ ms)) outcome g)
        _ _ (Triple-attempt _ (send_message-Triple start m ms)) ended
    where
      over_now :
          (r : Result Rejected (Unit {0})) (g : Stage) → Ends (λ _ g. Any g) (λ _ g. Any g) r g
      over_now (ok u) g = tt
      over_now (err e) g = tt

      ended :
          (outcome : Result Rejected (Unit {0}))
          → Runs device owner
              (Unit {0})
              (λ g. Ends (λ _ g. g ≡ between start ms) (λ _ g. g ≡ failed start (m ∷ ms)) outcome g)
              (λ _ g. Any g)
              (λ _ g. Any g)
              (after_send storage device sender owner m rest outcome)
      ended (ok u) = h
      ended (err e) =
          perform-Triple device owner (λ _ g. Any g) (λ _ g. Any g) (marked m)
            (mark_attempt storage device m) (λ r g p. rw p (refl, over_now r over))

  send_pending-Triple :
      (start : ℕ × ℕ) (ms : List OutboxMessage)
      → Runs device owner
          (Unit {0})
          (λ g. g ≡ between start ms)
          (λ _ g. Any g)
          (λ _ g. Any g)
          (send_pending storage device sender owner start ms)
  unfolding send_pending Any
  send_pending-Triple start [] = Triple-pure tt (λ g e. tt)
  send_pending-Triple start (m ∷ ms) =
      Triple-bind
        (λ gens g. g ≡ (if same_generations start gens then checked start (m ∷ ms) else over)) _ _
        (read_generations-Triple _ (λ a b g e. rw e (tt, refl)))
        (λ gens.
          Triple-if (same_generations start gens) _ _
            (λ same.
              Triple-weaken (λ g. g ≡ checked start (m ∷ ms)) (λ _ g. Any g) (λ _ g. Any g) _
                (try_message-Triple start m ms _ (send_pending-Triple start ms))
                (λ g e. rw same at e) (λ _ g p. tt) (λ _ g p. tt))
            (λ other. Triple-pure tt (λ g e. tt)))

  flush_body-Triple :
      Runs device owner
        (Unit {0})
        (λ g. g ≡ beginning none none)
        (λ _ g. Any g)
        (λ _ g. Any g)
        (flush_body storage device sender owner)
  unfolding flush_body Any
  flush_body-Triple =
      Triple-bind (λ start g. g ≡ beginning (some start) none) _ _
        (read_generations-Triple _ (λ a b g e. rw e (tt, refl)))
        (λ start.
          Triple-bind (λ now g. g ≡ beginning (some start) (some now)) _ _
            (Triple-call (λ _. Unit) _ _ (λ _. tt) (λ now g _ e. rw e (tt, refl)))
            (λ now.
              Triple-bind (λ ms g. g ≡ between start (keep (is_due device now) ms)) _ _
                (perform-Triple device owner
                  (λ ms g. g ≡ between start (keep (is_due device now) ms)) (λ _ g. Any g) listed
                  (list_all_outbox storage device owner) (λ r g e. rw e (tt, ended start now r)))
                (λ ms. send_pending-Triple start (keep (is_due device now) ms))))
    where
      ended :
          (start : ℕ × ℕ) (now : ℤ) (r : Result Rejected (List OutboxMessage))
          → Ends
              (λ ms g. g ≡ between start (keep (is_due device now) ms))
              (λ _ g. Any g)
              r
              (observe device (beginning (some start) (some now)) (listed r))
      ended start now (ok ms) = refl
      ended start now (err e) = tt

  new_flush-Triple :
      Runs device owner
        (Unit {0})
        (λ g. g ≡ beginning none none)
        (λ _ g. Any g)
        (λ _ g. Any g)
        (new_flush storage device sender owner)
  unfolding new_flush Any rethrow
  new_flush-Triple =
      Triple-bind (λ _ g. g ≡ beginning none none) _ _
        (set_memory-Triple device owner (begin_flush storage device sender owner))
        (λ _.
          Triple-bind (λ _ g. Any g) _ _
            (Triple-weaken _ (λ r g. Ends (λ _ g. Any g) (λ _ g. Any g) r g) (λ _ g. Any g) _
              (Triple-attempt _ flush_body-Triple) (λ g e. e) (λ _ g p. tt) (λ _ g p. tt))
            (λ outcome.
              Triple-bind (λ _ g. Any g) _ _
                (set_memory-Triple device owner (end_flush storage device sender owner))
                (λ _. outcome_of outcome)))
    where
      outcome_of :
          (r : Result Rejected (Unit {0}))
          → Runs device owner
              (Unit {0})
              (λ g. Any g)
              (λ _ g. Any g)
              (λ _ g. Any g)
              (rethrow storage device sender owner r)
      outcome_of (ok u) = Triple-pure tt (λ g p. tt)
      outcome_of (err e) = Triple-throw e (λ g p. tt)

  -- Whatever the sender and the storage do, a flush sends the messages of its list that are due, one
  -- after another from the first, each at most once. Each is sent just after a look at the purge
  -- generations that finds both as they were when the flush began, and a message that was sent is
  -- removed before the next look. Where a message was not sent, or not removed, nothing but the mark of
  -- its attempt follows.
  pub flush_all_outbox-Follows :
      (v : App W)
      → Follows
          (Allowed owner)
          (observe device)
          (beginning none none)
          (flush_all_outbox storage device sender owner v).1
  unfolding flush_all_outbox ◌>>=◌
  flush_all_outbox-Follows v =
      elim (Bool-cases (any (λ o. str_eq o owner) v.memory.active_flushes)) [
        | inl active ↦ rw active tt
        | inr free ↦ rw free ((new_flush-Triple).at v (beginning none none) refl).0
      ]
