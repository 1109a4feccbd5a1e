-- ===== src/PushDispatch/Process.antt =====
-- The delivery of one notification: `processClaimedNotification` and `sendExpoBatch` of
-- supabase/functions/push-dispatch/index.ts. A time that is stored is given by its distance from the
-- clock at that moment.
pub mod Safety
pub mod States
pub mod Batches
pub mod Protocol
mod Tests
use etkin_link.Base.{
  ℕ, ◌+◌, ◌-◌, ◌*◌, ◌^◌, min, Bool, true, false, not, ◌&&◌, ◌||◌, List, [], ◌∷◌, Option, none, some,
  ltb, ◌==◌, if◌then◌else◌, length, take, keep, map, any,
}
use etkin_link.Int.{ℤ, pos}
use etkin_link.Text.{Str, codes, str_eq}
use etkin_link.Json.{Json, str, Fields, member}
use etkin_link.Http.{Platform, Reply}
use etkin_link.Effect.{
  Result, ok, err, Act, pure, throw, call, throw_none, attempt, relabel, ◌>>=◌, ◌>>◌, throw_if,
}
use etkin_link.ExpoHttp
use etkin_link.ExpoHttp.{
  Failure, expo_http_error, unreadable, is_transient_expo_status, Options,
  fetch_expo_json_with_retry,
}
use etkin_link.PushReceipts.Receipt.{ReceiptStatus, says_ok, says_error}
use etkin_link.PushDispatch.Command.{chunks}
use etkin_link.PushDispatch.Tickets.{ExpoTicket, non_empty, normalize_expo_tickets}
use etkin_link.PushDispatch.Outcome.{
  PushToken, Counts, no_counts, error_or_default, count_batch, EventStatus, event_sent,
  event_failed, event_cancelled, permanent_failure, next_status,
}

abbrev pub max_messages_per_request : ℕ
max_messages_per_request = 100

abbrev pub max_expo_response_bytes : ℕ
max_expo_response_bytes = 512 * 1024

pub record NotificationEvent : Type 0 where
  pub id : Str
  pub user_id : Str
  pub kind : Str
  pub route_kind : Option Str
  pub route_id : Option Str
  pub title : Str
  pub body : Str
  pub payload : Fields
  pub channel_id : Str
  pub attempt_count : ℕ

pub record ClaimedNotification : Type 0 where
  pub event : NotificationEvent
  pub tokens : List PushToken

pub record DeliveryResult : Type 0 where
  pub event_id : Str
  pub delivered : ℕ
  pub failed : ℕ
  pub skipped : Bool

pub notification_ttl_seconds : Str → ℕ
notification_ttl_seconds kind =
    if str_eq kind (codes "direct_message") || str_eq kind (codes "room_message")
    then 86_400
    else if str_eq kind (codes "event_reminder")
    then 21_600
    else if str_eq kind (codes "system")
    then 259_200
    else 604_800

-- `ANDROID_CHANNELS[id] ?? ANDROID_CHANNELS.system`
pub android_channel : Str → Str
android_channel id =
    if str_eq id (codes "messages")
    then codes "messages-v2"
    else if str_eq id (codes "rooms")
    then codes "rooms-v2"
    else if str_eq id (codes "matches")
    then codes "matches-v2"
    else if str_eq id (codes "events")
    then codes "events-v2"
    else codes "system-v2"

-- A text of the payload, cut to 64 units; none if it is empty.
pub payload_text : Option Json → Option Str
payload_text (some (str s)) = non_empty (some (take 64 s))
payload_text _ = none

-- `data` is the payload with the four fields that follow it.
pub record PushMessage : Type 0 where
  pub to : Str
  pub title : Str
  pub body : Str
  pub channel_id : Str
  pub ttl : ℕ
  pub collapse_id : Option Str
  pub tag : Option Str
  pub payload : Fields
  pub notification_id : Str
  pub kind : Str
  pub route_kind : Option Str
  pub route_id : Option Str

pub message_for : NotificationEvent → PushToken → PushMessage
message_for event token = record {
  to = token.token;
  title = event.title;
  body = event.body;
  channel_id = android_channel event.channel_id;
  ttl = notification_ttl_seconds event.kind;
  collapse_id = payload_text (member (codes "collapseId") event.payload);
  tag = payload_text (member (codes "notificationTag") event.payload);
  payload = event.payload;
  notification_id = event.id;
  kind = event.kind;
  route_kind = event.route_kind;
  route_id = event.route_id;
}

-- A row of `notification_deliveries`. A message that was sent waits for its receipt, first asked for
-- after 15 minutes.
pub record DeliveryRow : Type 0 where
  pub push_token_id : Str
  pub sent : Bool
  pub expo_ticket_id : Option Str
  pub error_code : Option Str
  pub error_message : Option Str
  pub receipt_in_ms : Option ℕ

pub row_of : PushToken → ReceiptStatus → ExpoTicket → DeliveryRow
row_of token says_ok ticket = record {
  push_token_id = token.id;
  sent = true;
  expo_ticket_id = ticket.id;
  error_code = none;
  error_message = elim ticket.message [ none ↦ none | some m ↦ some (take 500 m) ];
  receipt_in_ms = some (15 * 60_000);
}
row_of token says_error ticket = record {
  push_token_id = token.id;
  sent = false;
  expo_ticket_id = ticket.id;
  error_code = some (error_or_default ticket.error);
  error_message = elim ticket.message [ none ↦ none | some m ↦ some (take 500 m) ];
  receipt_in_ms = none;
}

-- A token without a ticket.
pub row_without_ticket : PushToken → DeliveryRow
row_without_ticket token = record {
  push_token_id = token.id;
  sent = false;
  expo_ticket_id = none;
  error_code = some (error_or_default none);
  error_message = none;
  receipt_in_ms = none;
}

pub rows_of : List PushToken → List ExpoTicket → List DeliveryRow
rows_of [] tickets = []
rows_of (token ∷ tokens) [] = row_without_ticket token ∷ rows_of tokens []
rows_of (token ∷ tokens) (ticket ∷ tickets) =
    row_of token ticket.status ticket ∷ rows_of tokens tickets

-- What is stored as the last error of an event.
pub data LastError : Type 0 where
  device_not_registered partial_failure push_failure : LastError
  expo_transient_failure expo_permanent_failure : LastError
  persistence_failure : LastError  -- the text of the `PersistenceError`

-- An update of an event.
pub record EventUpdate : Type 0 where
  pub status : EventStatus
  pub delivered_now : Option Bool  -- `none`: the field is not written
  pub last_error : Option LastError
  pub next_attempt_in_ms : Option ℕ

pub data Lost : Type 0 where
  completed_unreadable completed_unsaved tickets_unsaved : Lost
  tokens_not_disabled event_unsaved failure_unsaved : Lost

-- A `PersistenceError`, or a `DeliveryProviderError` with `pendingTokens.length`.
pub data Trouble : Type 0 where
  persistence_error : Lost → Trouble
  provider_error : (retryable : Bool) (pending : ℕ) → Trouble

-- Each call with its reply; `none` or `false` is an error that the database client gives.
pub data Call : Type 0 where
  read_completed : (event_id : Str) (token_ids : List Str) → Option (List Str) → Call
  update_event : (event_id : Str) → EventUpdate → Bool → Call
  http : List PushMessage → ExpoHttp.Call → Call  -- the messages of the request
  upsert_deliveries : (event_id : Str) → List DeliveryRow → Bool → Call
  disable_tokens : List Str → Bool → Call

pub record Dependencies (W : Type 0) : Type 0 where
  pub completed : Str → List Str → W → Option (List Str) × W
  pub update : Str → EventUpdate → W → Bool × W
  pub upsert : Str → List DeliveryRow → W → Bool × W
  pub disable : List Str → W → Bool × W
  pub fetch : List PushMessage → W → Option Reply × W
  pub sleep : ℕ → W → Unit {0} × W
  pub now : W → ℤ × W
  pub jitter : W → ℕ × W

-- `60_000 * 2 ** Math.min(attempt_count, 6)`
pub retry_delay_ms : ℕ → ℕ
retry_delay_ms attempt_count = 60_000 * 2 ^ min attempt_count 6

pub next_attempt_in : EventStatus → ℕ → ℕ
next_attempt_in event_failed attempt_count = retry_delay_ms attempt_count
next_attempt_in _ attempt_count = 0

pub last_error_of : EventStatus → Bool → ℕ → Option LastError
last_error_of event_sent permanent success_count = none
last_error_of _ permanent success_count =
    if permanent
    then some device_not_registered
    else if ltb 0 success_count
    then some partial_failure
    else some push_failure

pub outcome_of : NotificationEvent → Counts → ℕ → EventUpdate
outcome_of event counts pending =
    let status = next_status counts pending in
    record {
      status = status;
      delivered_now = some (ltb 0 counts.success_count);
      last_error = last_error_of status (permanent_failure counts pending) counts.success_count;
      next_attempt_in_ms = some (next_attempt_in status event.attempt_count);
    }

abbrev pub already_sent : EventUpdate
already_sent = record {
  status = event_sent;
  delivered_now = some true;
  last_error = none;
  next_attempt_in_ms = none;
}

-- The status after an error: a failure of the service that will not pass cancels the event.
pub failure_status : Trouble → EventStatus
failure_status (persistence_error lost) = event_failed
failure_status (provider_error retryable pending) =
    if retryable then event_failed else event_cancelled

pub failure_error : Trouble → LastError
failure_error (persistence_error lost) = persistence_failure
failure_error (provider_error retryable pending) =
    if retryable then expo_transient_failure else expo_permanent_failure

pub failure_of : NotificationEvent → Trouble → EventUpdate
failure_of event trouble = record {
  status = failure_status trouble;
  delivered_now = none;
  last_error = some (failure_error trouble);
  next_attempt_in_ms = some (next_attempt_in (failure_status trouble) event.attempt_count);
}

-- `error instanceof ExpoHttpError && (error.status === null || isTransientExpoStatus(error.status))`
pub is_retryable : Failure → Bool
is_retryable (unreadable e) = false
is_retryable (expo_http_error complaint none) = true
is_retryable (expo_http_error complaint (some status)) = is_transient_expo_status status

-- The tokens without a delivery that is stored as sent.
pub pending_tokens : List PushToken → List Str → List PushToken
pending_tokens tokens completed_ids =
    keep (λ (token : PushToken). not (any (λ id. str_eq id token.id) completed_ids)) tokens

module _ {W : Type 0} (platform : Platform) (deps : Dependencies W)
    (event : NotificationEvent) where
  abbrev pub Step : Type 0 → Type 0
  Step A = Act W Call Trouble A

  pub options_for : List PushMessage → Options W
  options_for messages = record {
    fetch = deps.fetch messages;
    sleep = deps.sleep;
    now = deps.now;
    jitter = deps.jitter;
    max_response_bytes = max_expo_response_bytes;
    attempts = none;
  }

  -- An answer that is malformed is no `ExpoHttpError`.
  pub tickets_or_throw : ℕ → ℕ → Result Failure Json → Step (List ExpoTicket)
  tickets_or_throw pending count (err failure) =
      throw (provider_error (is_retryable failure) pending)
  tickets_or_throw pending count (ok payload) =
      throw_none (provider_error false pending) (normalize_expo_tickets payload count)

  -- `sendExpoBatch`, with the `catch` around it
  pub send_expo_batch : ℕ → List PushToken → Step (List ExpoTicket)
  send_expo_batch pending tokens = do
    let messages = map (message_for event) tokens
    payload ←
        attempt
          (relabel (http messages) (fetch_expo_json_with_retry platform (options_for messages)))
    tickets_or_throw pending (length messages) payload

  pub disable_invalid : List Str → Step (Unit {0})
  disable_invalid [] = pure tt
  disable_invalid (id ∷ ids) = do
    saved ← call (deps.disable (id ∷ ids)) (disable_tokens (id ∷ ids))
    throw_if (not saved) (persistence_error tokens_not_disabled)

  pub deliver_batch : ℕ → List PushToken → Counts → Step Counts
  deliver_batch pending tokens counts = do
    tickets ← send_expo_batch pending tokens
    saved ←
        call (deps.upsert event.id (rows_of tokens tickets))
          (upsert_deliveries event.id (rows_of tokens tickets))
    throw_if (not saved) (persistence_error tickets_unsaved)
    disable_invalid (count_batch tokens tickets no_counts).invalid_token_ids
    pure (count_batch tokens tickets counts)

  pub deliver_batches : ℕ → List (List PushToken) → Counts → Step Counts
  deliver_batches pending [] counts = pure counts
  deliver_batches pending (batch ∷ rest) counts = do
    counts' ← deliver_batch pending batch counts
    deliver_batches pending rest counts'

  abbrev pub skipped_result : DeliveryResult
  skipped_result = record { event_id = event.id; delivered = 0; failed = 0; skipped = true }

  pub finish_completed : Step DeliveryResult
  finish_completed = do
    saved ← call (deps.update event.id already_sent) (update_event event.id already_sent)
    throw_if (not saved) (persistence_error completed_unsaved)
    pure skipped_result

  pub finish_delivery : ℕ → Counts → Step DeliveryResult
  finish_delivery pending counts = do
    saved ←
        call (deps.update event.id (outcome_of event counts pending))
          (update_event event.id (outcome_of event counts pending))
    throw_if (not saved) (persistence_error event_unsaved)
    pure (record {
      event_id = event.id;
      delivered = counts.success_count;
      failed = pending - counts.success_count;
      skipped = false;
    })

  pub deliver_pending : List PushToken → Step DeliveryResult
  deliver_pending [] = finish_completed
  deliver_pending (token ∷ tokens) = do
    let pending = length (token ∷ tokens)
    counts ← deliver_batches pending (chunks (token ∷ tokens) max_messages_per_request) no_counts
    finish_delivery pending counts

  -- The body of the `try`.
  pub try_delivery : List PushToken → Step DeliveryResult
  try_delivery tokens = do
    let ids = map (λ (token : PushToken). token.id) tokens
    reply ← call (deps.completed event.id ids) (read_completed event.id ids)
    completed_ids ← throw_none (persistence_error completed_unreadable) reply
    deliver_pending (pending_tokens tokens completed_ids)

  -- After the failure is stored, an error of the database is thrown again.
  pub rethrow_or_report : Trouble → Step DeliveryResult
  rethrow_or_report (persistence_error lost) = throw (persistence_error lost)
  rethrow_or_report (provider_error retryable pending) =
      pure (record { event_id = event.id; delivered = 0; failed = pending; skipped = false })

  -- The `catch`.
  pub settle_delivery : Result Trouble DeliveryResult → Step DeliveryResult
  settle_delivery (ok result) = pure result
  settle_delivery (err trouble) = do
    saved ←
        call (deps.update event.id (failure_of event trouble))
          (update_event event.id (failure_of event trouble))
    throw_if (not saved) (persistence_error failure_unsaved)
    rethrow_or_report trouble

  pub process_tokens : List PushToken → Step DeliveryResult
  process_tokens [] = pure skipped_result
  process_tokens (token ∷ tokens) = do
    result ← attempt (try_delivery (token ∷ tokens))
    settle_delivery result

pub process_claimed_notification :
    {W : Type 0}
    → Platform
    → Dependencies W
    → ClaimedNotification
    → Act W Call Trouble DeliveryResult
process_claimed_notification platform deps claimed =
    process_tokens platform deps claimed.event claimed.tokens
