-- ===== src/PushReceipts/Receipt/Tests.antt =====
-- A failed receipt, read and classified.
use etkin_link.Base.{◌≡◌, ◌↔◌, refl, [], ◌∷◌, none, some}
use etkin_link.Text.{codes, str_eq}
use etkin_link.Json.{Json, str, obj, Fields, field, end, member}
use etkin_link.PushReceipts.Receipt.{
  Receipt, says_error, delivered, retryable, classify_receipt, classify_by_status, classify_error,
  bounded_optional_string, optional_text, details_error, receipt_status, fits_status, join_receipt,
  normalize_receipt, Receipts, add_receipt, normalize_each, receipt_of,
}
use etkin_link.PushReceipts.Receipt.Laws.{
  IsWellFormed, normalize_receipt-IsWellFormed, classify_receipt-delivered,
  receipt_of-normalize_each,
}

abbrev raw_receipt : Json
raw_receipt = obj (
    field (codes "status") (str (codes "error")) (
      field (codes "details") (obj (field (codes "error") (str (codes "MessageRateExceeded")) end))
        end))

abbrev receipt : Receipt
receipt = record { status = says_error; message = none; error = some (codes "MessageRateExceeded") }

opened : Unit {0}
unfolding normalize_receipt join_receipt receipt_status optional_text bounded_optional_string
    details_error fits_status member str_eq add_receipt normalize_each receipt_of classify_receipt
    classify_by_status classify_error
opened = tt

accepted : normalize_receipt raw_receipt ≡ some receipt
unfolding opened
accepted = refl

class : classify_receipt receipt ≡ retryable
unfolding opened
class = refl

normalize_receipt-IsWellFormed_example : IsWellFormed receipt
normalize_receipt-IsWellFormed_example = normalize_receipt-IsWellFormed raw_receipt receipt accepted

classify_receipt-delivered_example : (classify_receipt receipt ≡ delivered) ↔ (receipt.error ≡ none)
classify_receipt-delivered_example = classify_receipt-delivered raw_receipt receipt accepted

abbrev answers : Fields
answers = field (codes "t1") raw_receipt end

abbrev found : Receipts
found = (codes "t1", receipt) ∷ []

normalized : normalize_each answers (codes "t1" ∷ codes "t2" ∷ []) ≡ some found
unfolding opened
normalized = refl

looked_up : receipt_of (codes "t1") found ≡ some receipt
unfolding opened
looked_up = refl

receipt_of-normalize_each_example :
    (raw : Json) × (member (codes "t1") answers ≡ some raw) × (normalize_receipt raw ≡ some receipt)
receipt_of-normalize_each_example =
    receipt_of-normalize_each answers (codes "t1" ∷ codes "t2" ∷ []) found (codes "t1") receipt
      normalized looked_up
