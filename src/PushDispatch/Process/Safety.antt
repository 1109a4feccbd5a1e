-- ===== src/PushDispatch/Process/Safety.antt =====
-- What the delivery of one notification may do next, written over the entries that it leaves behind.
use etkin_link.Base.{
  ℕ, ◌+◌, ◌≡◌, ◌≤◌, refl, ap, Bool, true, false, not, List, [], ◌∷◌, ◌++◌, none, some, length, take,
  drop, keep, map, any, All, ◌⊎◌, arith,
}
use etkin_link.Text.{Str, str_eq}
use etkin_link.PushReceipts.Receipt.{ReceiptStatus, says_ok, says_error}
use etkin_link.PushDispatch.Tickets.{ExpoTicket}
use etkin_link.PushDispatch.Outcome.{PushToken, event_sent}
use etkin_link.PushDispatch.Process.{
  NotificationEvent, PushMessage, message_for, DeliveryResult, DeliveryRow, row_of,
  row_without_ticket, rows_of, failure_unsaved, Trouble, persistence_error, provider_error, Call,
  read_completed, update_event, http, upsert_deliveries, disable_tokens, pending_tokens,
}

pub record Progress : Type 0 where
  pub read : Bool  -- the completed deliveries are known
  pub pending : ℕ  -- how many tokens had none
  pub queue : List PushToken  -- the tokens that have no row yet
  pub settled : Bool  -- the status of the event is stored

abbrev pub fresh : Progress
fresh = record { read = false; pending = 0; queue = []; settled = false }

abbrev pub not_completed : List Str → Str → Bool
not_completed completed_ids token_id = not (any (λ id. str_eq id token_id) completed_ids)

-- The tokens of the notification without a completed delivery.
abbrev pub left_over : List PushToken → List Str → List PushToken
left_over tokens completed_ids =
    keep (λ (token : PushToken). not_completed completed_ids token.id) tokens

abbrev pub observe : List PushToken → Progress → Call → Progress
observe tokens g (read_completed _ _ (some completed_ids)) = record g {
  read = true;
  pending = length (left_over tokens completed_ids);
  queue = left_over tokens completed_ids;
}
observe tokens g (read_completed _ _ none) = g
observe tokens g (update_event _ _ true) = record g { settled = true }
observe tokens g (update_event _ _ false) = g
observe tokens g (http _ _) = g
observe tokens g (upsert_deliveries _ rows true) = record g { queue = drop (length rows) g.queue }
observe tokens g (upsert_deliveries _ rows false) = g
observe tokens g (disable_tokens _ _) = g

abbrev pub row_ids : List DeliveryRow → List Str
row_ids rows = map (λ (r : DeliveryRow). r.push_token_id) rows

abbrev pub ids_of : List PushToken → List Str
ids_of tokens = map (λ (token : PushToken). token.id) tokens

abbrev pub recipients : List PushMessage → List Str
recipients messages = map (λ (m : PushMessage). m.to) messages

abbrev pub addresses : List PushToken → List Str
addresses tokens = map (λ (token : PushToken). token.token) tokens

-- Messages of the event go out, and rows are stored, only for the next tokens without a completed
-- delivery, at most 100 at a time and in their order; an event counts as sent only when each of them
-- has its row.
abbrev pub Allowed : NotificationEvent → List PushToken → Progress → Call → Type 0
Allowed event tokens g (read_completed id ids _) =
    (id ≡ event.id) × (ids ≡ ids_of tokens) × (g.read ≡ false) × (g.settled ≡ false)
Allowed event tokens g (update_event id update _) =
    (id ≡ event.id) × (g.settled ≡ false) × (update.status ≡ event_sent → g.queue ≡ [])
Allowed event tokens g (http messages _) =
    (g.read ≡ true)
    × (g.settled ≡ false)
    × (length messages ≤ 100)
    × (recipients messages ≡ addresses (take (length messages) g.queue))
    × All (λ (m : PushMessage). m.notification_id ≡ event.id) messages
Allowed event tokens g (upsert_deliveries id rows _) =
    (id ≡ event.id)
    × (g.read ≡ true)
    × (g.settled ≡ false)
    × (length rows ≤ 100)
    × (row_ids rows ≡ ids_of (take (length rows) g.queue))
Allowed event tokens g (disable_tokens _ _) = (g.read ≡ true) × (g.settled ≡ false)

-- A result comes after the status is stored, and counts every pending token once.
abbrev pub Settled : DeliveryResult → Progress → Type 0
Settled result g = (g.settled ≡ true) × (result.delivered + result.failed ≡ g.pending)

-- The result of a notification without tokens needs no update.
abbrev pub Finished : List PushToken → DeliveryResult → Progress → Type 0
Finished [] result g = result.skipped ≡ true
Finished (token ∷ tokens) result g = Settled result g

-- An error is passed on only after it is stored, or because it could not be.
abbrev pub Stopped : Trouble → Progress → Type 0
Stopped (persistence_error lost) g = (g.settled ≡ true) ⊎ (lost ≡ failure_unsaved)
Stopped (provider_error _ _) g = ⊥

row_of-id :
    (token : PushToken) (status : ReceiptStatus) (ticket : ExpoTicket)
    → (row_of token status ticket).push_token_id ≡ token.id
unfolding row_of
row_of-id token says_ok ticket = refl
row_of-id token says_error ticket = refl

-- Every token has its row, in the order of the tokens.
pub row_ids-rows_of :
    (tokens : List PushToken) (tickets : List ExpoTicket)
    → row_ids (rows_of tokens tickets) ≡ ids_of tokens
unfolding rows_of row_without_ticket
row_ids-rows_of [] tickets = refl
row_ids-rows_of (token ∷ tokens) [] = ap (λ ids. token.id ∷ ids) (row_ids-rows_of tokens [])
row_ids-rows_of (token ∷ tokens) (ticket ∷ tickets) =
    rw (row_of-id token ticket.status ticket)
      (ap (λ ids. token.id ∷ ids) (row_ids-rows_of tokens tickets))

pub length-rows_of :
    (tokens : List PushToken) (tickets : List ExpoTicket)
    → length (rows_of tokens tickets) ≡ length tokens
unfolding rows_of
length-rows_of [] tickets = refl
length-rows_of (token ∷ tokens) [] = omega (arith, length-rows_of tokens [])
length-rows_of (token ∷ tokens) (ticket ∷ tickets) = omega (arith, length-rows_of tokens tickets)

pub take_left : (tokens rest : List PushToken) → take (length tokens) (tokens ++ rest) ≡ tokens
take_left [] rest = refl
take_left (token ∷ tokens) rest = ap (λ ts. token ∷ ts) (take_left tokens rest)

pub drop_left : (tokens rest : List PushToken) → drop (length tokens) (tokens ++ rest) ≡ rest
drop_left [] rest = refl
drop_left (token ∷ tokens) rest = drop_left tokens rest

pub pending_tokens-left_over :
    (tokens : List PushToken) (completed_ids : List Str)
    → pending_tokens tokens completed_ids ≡ left_over tokens completed_ids
unfolding pending_tokens
pending_tokens-left_over tokens completed_ids = refl

-- The messages of a batch go to its tokens.
pub recipients-message_for :
    (event : NotificationEvent) (tokens : List PushToken)
    → recipients (map (message_for event) tokens) ≡ addresses tokens
unfolding message_for
recipients-message_for event [] = refl
recipients-message_for event (token ∷ tokens) =
    ap (λ ts. token.token ∷ ts) (recipients-message_for event tokens)

pub length-message_for :
    (event : NotificationEvent) (tokens : List PushToken)
    → length (map (message_for event) tokens) ≡ length tokens
length-message_for event [] = refl
length-message_for event (token ∷ tokens) = omega (arith, length-message_for event tokens)

pub All-message_for :
    (event : NotificationEvent) (tokens : List PushToken)
    → All (λ (m : PushMessage). m.notification_id ≡ event.id) (map (message_for event) tokens)
unfolding message_for
All-message_for event [] = tt
All-message_for event (token ∷ tokens) = (refl, All-message_for event tokens)
