-- ===== src/PushDispatch/Process/Batches.antt =====
-- The batches of a notification, against the protocol of its delivery.
use etkin_link.Base.{
  ℕ, ◌+◌, ◌≤◌, ◌≡◌, refl, Bool, true, false, List, [], ◌∷◌, ◌++◌, length, All, map, take,
  length-append, arith,
}
use etkin_link.Text.{Str}
use etkin_link.Json.{Json}
use etkin_link.Http.{Platform}
use etkin_link.Effect.{Result, ok, err}
use etkin_link.Effect.Protocol.{
  Ends, Triple-pure, Triple-throw, Triple-throw_none, Triple-call, Triple-weaken, Triple-bind,
  Triple-throw_if, Triple-attempt, Triple-relabel, Triple-given,
}
use etkin_link.ExpoHttp.{Failure}
use etkin_link.PushDispatch.Command.{joined}
use etkin_link.PushDispatch.Tickets.{ExpoTicket}
use etkin_link.PushDispatch.Outcome.{PushToken, Counts, total, total-count_batch}
use etkin_link.PushDispatch.Process.{
  NotificationEvent, PushMessage, message_for, rows_of, http, upsert_deliveries, Dependencies,
  tickets_or_throw, send_expo_batch, disable_invalid, deliver_batch, deliver_batches,
}
use etkin_link.PushDispatch.Process.Safety.{
  Progress, observe, recipients, addresses, row_ids-rows_of, length-rows_of, take_left, drop_left,
  recipients-message_for, length-message_for, All-message_for,
}
use etkin_link.PushDispatch.Process.States.{Rule, Failing, Waits, true_of_not}

module _ {W : Type 0} (platform : Platform) (deps : Dependencies W) (event : NotificationEvent)
    (all : List PushToken) where
  tickets_or_throw-Rule :
      (pending count : ℕ) (tokens : List PushToken) (payload : Result Failure Json)
      → Rule event all
          (Waits pending tokens)
          (λ _ g. Waits pending tokens g)
          Failing
          (tickets_or_throw platform deps event pending count payload)
  unfolding tickets_or_throw
  tickets_or_throw-Rule pending count tokens (err failure) = Triple-throw _ (λ g p. (p.1, p.2))
  tickets_or_throw-Rule pending count tokens (ok payload) =
      Triple-throw_none _ _ (λ g p h. (p.1, p.2)) (λ tickets g p h. p)

  send-Rule :
      (pending : ℕ) (batch rest : List PushToken)
      → length batch ≤ 100
      → Rule event all
          (Waits pending (batch ++ rest))
          (λ _ g. Waits pending (batch ++ rest) g)
          Failing
          (send_expo_batch platform deps event pending batch)
  unfolding send_expo_batch
  send-Rule pending batch rest small =
      Triple-bind (λ _ g. Waits pending (batch ++ rest) g) _ _
        (Triple-weaken _ _ _ _
          (Triple-attempt _ (
            Triple-relabel (http (map (message_for event) batch)) (Waits pending (batch ++ rest))
              (λ g c p. sent g p) (λ g c. refl) _))
          (λ g p. p) same (λ e g p. p))
        (λ payload. tickets_or_throw-Rule pending _ (batch ++ rest) payload)
    where
      sent :
          (g : Progress)
          → Waits pending (batch ++ rest) g
          → (g.read ≡ true)
            × (g.settled ≡ false)
            × (length (map (message_for event) batch) ≤ 100)
            × (recipients (map (message_for event) batch)
                ≡ addresses (take (length (map (message_for event) batch)) g.queue))
            × All
                (λ (m : PushMessage). m.notification_id ≡ event.id)
                (map (message_for event) batch)
      sent g p = (
        p.0,
        p.1,
        rw (length-message_for event batch) small,
        rw (length-message_for event batch, p.3, take_left batch rest)
            (recipients-message_for event batch),
        All-message_for event batch,
      )

      same :
          (r : Result Failure Json) (g : Progress)
          → Ends
              (λ _ g. Waits pending (batch ++ rest) g)
              (λ _ g. Waits pending (batch ++ rest) g)
              r
              g
          → Waits pending (batch ++ rest) g
      same (ok a) g p = p
      same (err e) g p = p

  disable-Rule :
      (pending : ℕ) (tokens : List PushToken) (ids : List Str)
      → Rule event all
          (Waits pending tokens)
          (λ _ g. Waits pending tokens g)
          Failing
          (disable_invalid platform deps event ids)
  unfolding disable_invalid
  disable-Rule pending tokens [] = Triple-pure tt (λ g p. p)
  disable-Rule pending tokens (id ∷ ids) =
      Triple-bind (λ _ g. Waits pending tokens g) _ _
        (Triple-call (λ _. Unit) _ _ (λ w. tt) (λ saved g r p. ((p.0, p.1), p)))
        (λ saved.
          Triple-weaken _ _ _ _ (Triple-throw_if _ _ (λ g p h. p.1)) (λ g p. p) (λ _ g p. p.0)
            (λ e g p. p))

  stored_lem :
      (pending : ℕ) (batch rest : List PushToken) (tickets : List ExpoTicket) (saved : Bool)
      (g : Progress)
      → Waits pending (batch ++ rest) g
      → (observe all g (upsert_deliveries event.id (rows_of batch tickets) saved)).settled ≡ false
        × (saved ≡ true
            → Waits pending rest
                (observe all g (upsert_deliveries event.id (rows_of batch tickets) saved)))
  stored_lem pending batch rest tickets false g p = (p.1, λ e. cc)
  stored_lem pending batch rest tickets true g p =
      (p.1, λ e. (p.0, p.1, p.2, rw (length-rows_of batch tickets, p.3) (drop_left batch rest)))

  deliver_batch-Rule :
      (pending : ℕ) (batch rest : List PushToken) (counts : Counts)
      → length batch ≤ 100
      → Rule event all
          (Waits pending (batch ++ rest))
          (λ counts' g. Waits pending rest g × (total counts' ≡ total counts + length batch))
          Failing
          (deliver_batch platform deps event pending batch counts)
  unfolding deliver_batch
  deliver_batch-Rule pending batch rest counts small =
      Triple-bind (λ _ g. Waits pending (batch ++ rest) g) _ _ (send-Rule pending batch rest small)
        (λ tickets.
          Triple-bind (λ saved g. (g.settled ≡ false) × (saved ≡ true → Waits pending rest g)) _ _
            (Triple-call (λ _. Unit) _ _ (λ w. tt)
              (λ saved g r p. (
                (
                  refl,
                  p.0,
                  p.1,
                  rw (length-rows_of batch tickets) small,
                  rw (length-rows_of batch tickets, p.3, take_left batch rest)
                      (row_ids-rows_of batch tickets),
                ),
                stored_lem pending batch rest tickets saved g p,
              )))
            (λ saved.
              Triple-bind (λ _ g. Waits pending rest g) _ _
                (Triple-weaken _ _ _ _ (Triple-throw_if _ _ (λ g p h. p.0)) (λ g p. p)
                  (λ _ g p. p.0.1 (true_of_not saved p.1)) (λ e g p. p))
                (λ _.
                  Triple-bind (λ _ g. Waits pending rest g) _ _ (disable-Rule pending rest _)
                    (λ _. Triple-pure _ (λ g p. (p, total-count_batch batch tickets counts))))))

  pub deliver_batches-Rule :
      (pending : ℕ) (batches : List (List PushToken)) (counts : Counts)
      → All (λ batch. length batch ≤ 100) batches
      → total counts + length (joined batches) ≡ pending
      → Rule event all
          (Waits pending (joined batches))
          (λ counts' g. Waits pending [] g × (total counts' ≡ pending))
          Failing
          (deliver_batches platform deps event pending batches counts)
  unfolding deliver_batches
  deliver_batches-Rule pending [] counts small size =
      Triple-pure counts (λ g p. (p, omega (arith, size)))
  deliver_batches-Rule pending (batch ∷ rest) counts small size =
      Triple-bind
        (λ counts' g. Waits pending (joined rest) g × (total counts' ≡ total counts + length batch))
        _ _ (deliver_batch-Rule pending batch (joined rest) counts small.0)
        (λ counts'. Triple-given _ (λ g p.
          Triple-weaken _ _ _ _
            (deliver_batches-Rule pending rest counts' small.1
              (omega (arith, size, p.1, length-append batch (joined rest))))
            (λ g p. p.0) (λ c g p. p) (λ e g p. p)))
