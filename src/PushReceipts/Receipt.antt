-- ===== src/PushReceipts/Receipt.antt =====
-- A receipt, from JSON to its class: supabase/functions/push-receipts/index.ts.
pub mod Laws
mod Tests
use etkin_link.Base.{
  ℕ, ◌+◌, ◌≡◌, refl, Bool, true, false, not, ◌&&◌, ◌||◌, List, [], ◌∷◌, Option, none, some, leb,
  ◌==◌, if◌then◌else◌, length, any,
}
use etkin_link.Text.{Str, codes, str_eq}
use etkin_link.Json.{Json, str, arr, obj, Fields, member}

pub data ReceiptStatus : Type 0 where
  says_ok says_error : ReceiptStatus

-- `error` is `details.error`; a receipt has `details` only with it.
pub record Receipt : Type 0 where
  pub status : ReceiptStatus
  pub message : Option Str
  pub error : Option Str

pub data ReceiptState : Type 0 where
  delivered invalid_token retryable permanent_failure : ReceiptState

abbrev pub retryable_expo_errors : List Str
retryable_expo_errors =
    codes "ExpoServerError"
    ∷ codes "InternalServerError"
    ∷ codes "MessageRateExceeded"
    ∷ codes "ServiceUnavailable"
    ∷ []

abbrev pub error_or_unknown : Option Str → Str
error_or_unknown none = codes "UNKNOWN_RECEIPT_ERROR"
error_or_unknown (some error_code) = error_code

-- The class of a failed receipt, by its code.
pub classify_error : Str → ReceiptState
classify_error error_code =
    if str_eq error_code (codes "DeviceNotRegistered")
    then invalid_token
    else if any (λ e. str_eq e error_code) retryable_expo_errors
    then retryable
    else permanent_failure

pub classify_by_status : ReceiptStatus → Option Str → ReceiptState
classify_by_status says_ok error = delivered
classify_by_status says_error error = classify_error (error_or_unknown error)

pub classify_receipt : Receipt → ReceiptState
classify_receipt receipt = classify_by_status receipt.status receipt.error

-- `boundedOptionalString`, of a property
unfoldable pub bounded_optional_string : Option Json → ℕ → Option Str
bounded_optional_string (some (str s)) max_length =
    if leb (length s) max_length then some s else none
bounded_optional_string _ max_length = none

-- A property that is there must be a text of this length. The outer `none` is the error.
unfoldable pub optional_text : Option Json → ℕ → Option (Option Str)
unfolding bounded_optional_string
optional_text none max_length = some none
optional_text (some value) max_length = elim (bounded_optional_string (some value) max_length) [
  | none ↦ none
  | some s ↦ some (some s)
]

-- An array is an object without `error`.
unfoldable pub details_error : Option Json → Option (Option Str)
unfolding optional_text member
details_error none = some none
details_error (some (obj details)) = optional_text (member (codes "error") details) 120
details_error (some (arr items)) = some none
details_error (some _) = none

unfoldable pub receipt_status : Option Json → Option ReceiptStatus
unfolding str_eq
receipt_status (some (str s)) =
    if str_eq s (codes "ok")
    then some says_ok
    else if str_eq s (codes "error")
    then some says_error
    else none
receipt_status _ = none

-- The status and the code must fit: a failure has a code, and it is not empty; a success has none.
pub fits_status : ReceiptStatus → Option Str → Bool
fits_status says_ok none = true
fits_status says_ok (some error_code) = false
fits_status says_error none = false
fits_status says_error (some []) = false
fits_status says_error (some (c ∷ error_code)) = true

pub join_receipt : Option ReceiptStatus → Option (Option Str) → Option (Option Str) → Option Receipt
unfolding fits_status
join_receipt (some status) (some message) (some error) =
    if fits_status status error
    then some (record { status = status; message = message; error = error })
    else none
join_receipt _ _ _ = none

-- `none` is a thrown error; which one does not matter to the caller.
pub normalize_receipt : Json → Option Receipt
unfolding join_receipt receipt_status optional_text details_error member
normalize_receipt (obj candidate) =
    join_receipt (receipt_status (member (codes "status") candidate))
      (optional_text (member (codes "message") candidate) 500)
      (details_error (member (codes "details") candidate))
normalize_receipt _ = none

abbrev pub Receipts : Type 0
Receipts = List (Str × Receipt)

pub add_receipt : Str → Option Receipt → Option Receipts → Option Receipts
add_receipt ticket_id (some receipt) (some receipts) = some ((ticket_id, receipt) ∷ receipts)
add_receipt ticket_id _ _ = none

pub normalize_each : Fields → List Str → Option Receipts
unfolding add_receipt normalize_receipt member
normalize_each data_fields [] = some []
normalize_each data_fields (ticket_id ∷ ids) =
    let rest = normalize_each data_fields ids in
    elim (member ticket_id data_fields) [
      | none ↦ rest
      | some raw ↦ add_receipt ticket_id (normalize_receipt raw) rest
    ]

pub normalize_data : Option Json → List Str → Option Receipts
unfolding normalize_each
normalize_data (some (obj data_fields)) requested_ids = normalize_each data_fields requested_ids
normalize_data _ requested_ids = none

pub normalize_receipt_payload : Json → List Str → Option Receipts
unfolding normalize_data member
normalize_receipt_payload (obj payload) requested_ids =
    normalize_data (member (codes "data") payload) requested_ids
normalize_receipt_payload _ requested_ids = none

-- `receipts[ticketId]`
pub receipt_of : Str → Receipts → Option Receipt
unfolding str_eq
receipt_of ticket_id [] = none
receipt_of ticket_id ((k, receipt) ∷ receipts) =
    if str_eq k ticket_id then some receipt else receipt_of ticket_id receipts
