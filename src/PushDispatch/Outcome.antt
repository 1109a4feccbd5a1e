-- ===== src/PushDispatch/Outcome.antt =====
-- How the tickets of a notification are counted, and the status that it gets:
-- supabase/functions/push-dispatch/index.ts.
mod Tests
use etkin_link.Base.{
  ℕ, zero, suc, ◌+◌, ◌<◌, ◌≤◌, ◌≡◌, ◌↔◌, refl, Bool, true, false, not, ◌&&◌, ◌||◌, List, [], ◌∷◌,
  ◌++◌, length-append, Option, none, some, ltb, ◌==◌, ==_iff, if◌then◌else◌, length, any, arith,
}
use etkin_link.Text.{Str, codes, str_eq}
use etkin_link.PushReceipts.Receipt.{ReceiptStatus, says_ok, says_error, retryable_expo_errors}
use etkin_link.PushDispatch.Tickets.{ExpoTicket}

pub data TokenPlatform : Type 0 where
  android ios : TokenPlatform

pub record PushToken : Type 0 where
  pub id : Str
  pub token : Str
  pub platform : TokenPlatform

-- `successCount`, `invalidTokenIds`, `retryableTicketFailureCount`, `permanentTicketFailureCount`
pub record Counts : Type 0 where
  pub success_count : ℕ
  pub invalid_token_ids : List Str
  pub retryable_failures : ℕ
  pub permanent_failures : ℕ

abbrev pub no_counts : Counts
no_counts = record {
  success_count = 0;
  invalid_token_ids = [];
  retryable_failures = 0;
  permanent_failures = 0;
}

-- `ticket?.details?.error ?? "EXPO_PUSH_ERROR"`
abbrev pub error_or_default : Option Str → Str
error_or_default none = codes "EXPO_PUSH_ERROR"
error_or_default (some error_code) = error_code

-- Whether the token is no longer registered, and if not, whether the failure may pass.
count_class : (invalid retryable : Bool) → PushToken → Counts → Counts
count_class invalid retryable token counts =
    if invalid
    then record counts { invalid_token_ids = counts.invalid_token_ids ++ (token.id ∷ []) }
    else if retryable
    then record counts { retryable_failures = suc counts.retryable_failures }
    else record counts { permanent_failures = suc counts.permanent_failures }

count_failure : PushToken → Str → Counts → Counts
unfolding str_eq
count_failure token error_code counts =
    count_class (str_eq error_code (codes "DeviceNotRegistered"))
      (any (λ e. str_eq e error_code) retryable_expo_errors) token counts

count_ticket : PushToken → ReceiptStatus → Option Str → Counts → Counts
unfolding count_failure
count_ticket token says_ok error counts = record counts { success_count = suc counts.success_count }
count_ticket token says_error error counts = count_failure token (error_or_default error) counts

-- `tokenBatch.forEach((token, index) => ...)`; a token without a ticket has failed.
pub count_batch : List PushToken → List ExpoTicket → Counts → Counts
unfolding count_ticket
count_batch [] tickets counts = counts
count_batch (token ∷ tokens) [] counts =
    count_batch tokens [] (count_failure token (error_or_default none) counts)
count_batch (token ∷ tokens) (ticket ∷ tickets) counts =
    count_batch tokens tickets (count_ticket token ticket.status ticket.error counts)

pub data EventStatus : Type 0 where
  event_sent event_failed event_cancelled : EventStatus

pub permanent_failure : Counts → ℕ → Bool
permanent_failure counts pending =
    counts.success_count == 0
    && length counts.invalid_token_ids + counts.permanent_failures == pending

pub next_status : Counts → ℕ → EventStatus
unfolding permanent_failure
next_status counts pending =
    if ltb 0 counts.retryable_failures
    then event_failed
    else if ltb 0 counts.success_count
    then event_sent
    else if permanent_failure counts pending
    then event_cancelled
    else event_failed

abbrev pub total : Counts → ℕ
total counts =
    counts.success_count
    + length counts.invalid_token_ids
    + counts.retryable_failures
    + counts.permanent_failures

total-count_class :
    (invalid retryable : Bool) (token : PushToken) (counts : Counts)
    → total (count_class invalid retryable token counts) ≡ suc (total counts)
unfolding count_class
total-count_class true retryable token counts =
    omega (arith, length-append counts.invalid_token_ids (token.id ∷ []))
total-count_class false true token counts = omega arith
total-count_class false false token counts = omega arith

total-count_failure :
    (token : PushToken) (code : Str) (counts : Counts)
    → total (count_failure token code counts) ≡ suc (total counts)
unfolding count_failure
total-count_failure token code counts = total-count_class _ _ token counts

total-count_ticket :
    (token : PushToken) (status : ReceiptStatus) (error : Option Str) (counts : Counts)
    → total (count_ticket token status error counts) ≡ suc (total counts)
unfolding count_ticket
total-count_ticket token says_ok error counts = omega arith
total-count_ticket token says_error error counts =
    total-count_failure token (error_or_default error) counts

-- Every token of a batch is counted in exactly one of the four numbers, whatever its ticket.
pub total-count_batch :
    (tokens : List PushToken) (tickets : List ExpoTicket) (counts : Counts)
    → total (count_batch tokens tickets counts) ≡ total counts + length tokens
unfolding count_batch
total-count_batch [] tickets counts = omega arith
total-count_batch (token ∷ tokens) [] counts = omega (
  arith,
  total-count_batch tokens [] (count_failure token (error_or_default none) counts),
  total-count_failure token (error_or_default none) counts,
)
total-count_batch (token ∷ tokens) (ticket ∷ tickets) counts = omega (
  arith,
  total-count_batch tokens tickets (count_ticket token ticket.status ticket.error counts),
  total-count_ticket token ticket.status ticket.error counts,
)

-- When the counts cover the tokens, of which there is one at least: the notification is tried again
-- exactly if a failure may pass, is sent exactly if none may and one ticket is a success, and is
-- cancelled exactly if every token failed for good.
pub next_status_iff :
    (counts : Counts) (pending : ℕ)
    → total counts ≡ pending
    → 1 ≤ pending
    → ((next_status counts pending ≡ event_failed) ↔ (1 ≤ counts.retryable_failures))
      × ((next_status counts pending ≡ event_sent)
          ↔ ((counts.retryable_failures ≡ 0) × (1 ≤ counts.success_count)))
      × ((next_status counts pending ≡ event_cancelled)
          ↔ (length counts.invalid_token_ids + counts.permanent_failures ≡ pending))
unfolding next_status permanent_failure
next_status_iff counts pending covered some_token = (
  (λ h. ground arith, λ h. ground arith),
  (λ h. (ground arith, ground arith), λ (none_left, sent). ground arith),
  (λ h. ground arith, λ h. ground arith),
)
