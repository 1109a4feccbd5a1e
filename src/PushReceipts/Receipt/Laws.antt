-- ===== src/PushReceipts/Receipt/Laws.antt =====
-- What a receipt that passed the checks is, and which message counts as delivered.
use etkin_link.Base.{
  ℕ, ◌≤◌, ◌≡◌, ◌≢◌, ◌↔◌, refl, true, List, [], ◌∷◌, Option, none, some, length, arith, Bool-cases,
  Option-cases, inl, inr,
}
use etkin_link.Text.{Str, codes, str_eq}
use etkin_link.Text.Laws.{str_eq→eq}
use etkin_link.Json.{Json, obj, Fields, member, str, arr, null, bool, int, fraction}
use etkin_link.PushReceipts.Receipt.{
  ReceiptStatus, says_ok, says_error, Receipt, delivered, classify_receipt, classify_by_status,
  classify_error, bounded_optional_string, optional_text, details_error, fits_status, join_receipt,
  normalize_receipt, Receipts, add_receipt, normalize_each, receipt_of,
}

abbrev pub IsWithin : ℕ → Option Str → Type 0
IsWithin n none = Unit
IsWithin n (some s) = length s ≤ n

abbrev pub IsCoded : ReceiptStatus → Option Str → Type 0
IsCoded says_ok error = error ≡ none
IsCoded says_error error = (c : ℕ) × (s : Str) × (error ≡ some (c ∷ s))

-- The texts are bounded, a failure names its cause, a success names none.
abbrev pub IsWellFormed : Receipt → Type 0
IsWellFormed receipt =
    IsWithin 500 receipt.message × IsWithin 120 receipt.error × IsCoded receipt.status receipt.error

pub optional_text-IsWithin :
    (value : Option Json) (n : ℕ) (text : Option Str)
    → optional_text value n ≡ some text
    → IsWithin n text
unfolding optional_text bounded_optional_string
optional_text-IsWithin value n none h = tt
optional_text-IsWithin value n (some s) h = ground arith

pub details_error-IsWithin :
    (value : Option Json) (text : Option Str) → details_error value ≡ some text → IsWithin 120 text
unfolding details_error
details_error-IsWithin value none h = tt
details_error-IsWithin (some (obj details)) (some s) h =
    optional_text-IsWithin (member (codes "error") details) 120 (some s) h
details_error-IsWithin none (some s) h = cc
details_error-IsWithin (some (arr items)) (some s) h = cc
details_error-IsWithin (some null) (some s) h = cc
details_error-IsWithin (some (bool b)) (some s) h = cc
details_error-IsWithin (some (int n)) (some s) h = cc
details_error-IsWithin (some (fraction n)) (some s) h = cc
details_error-IsWithin (some (str t)) (some s) h = cc

fits_status-IsCoded :
    (status : ReceiptStatus) (error : Option Str)
    → fits_status status error ≡ true
    → IsCoded status error
unfolding fits_status
fits_status-IsCoded says_ok none h = refl
fits_status-IsCoded says_ok (some e) h = cc
fits_status-IsCoded says_error none h = cc
fits_status-IsCoded says_error (some []) h = cc
fits_status-IsCoded says_error (some (c ∷ s)) h = (c, s, refl)

join_receipt-IsWellFormed :
    (status : Option ReceiptStatus) (message error : Option (Option Str)) (r : Receipt)
    → ((m : Option Str) → message ≡ some m → IsWithin 500 m)
    → ((e : Option Str) → error ≡ some e → IsWithin 120 e)
    → join_receipt status message error ≡ some r
    → IsWellFormed r
unfolding join_receipt
join_receipt-IsWellFormed none message error r hm he h = cc
join_receipt-IsWellFormed (some status) none error r hm he h = cc
join_receipt-IsWellFormed (some status) (some message) none r hm he h = cc
join_receipt-IsWellFormed (some status) (some message) (some error) r hm he h =
    let fits : fits_status status error ≡ true = ground arith in
    let same : record { status = status; message = message; error = error } ≡ r = ground arith in
    rw (← same) (hm message refl, he error refl, fits_status-IsCoded status error fits)

-- A receipt that is accepted has bounded texts; a failure names its cause, a success names none.
pub normalize_receipt-IsWellFormed :
    (raw : Json) (r : Receipt) → normalize_receipt raw ≡ some r → IsWellFormed r
unfolding normalize_receipt
normalize_receipt-IsWellFormed (obj candidate) r h =
    join_receipt-IsWellFormed _ _ _ r
      (optional_text-IsWithin (member (codes "message") candidate) 500)
      (details_error-IsWithin (member (codes "details") candidate)) h
normalize_receipt-IsWellFormed null r h = cc
normalize_receipt-IsWellFormed (bool b) r h = cc
normalize_receipt-IsWellFormed (int n) r h = cc
normalize_receipt-IsWellFormed (fraction n) r h = cc
normalize_receipt-IsWellFormed (str s) r h = cc
normalize_receipt-IsWellFormed (arr items) r h = cc

classify_error-failed : (e : Str) → classify_error e ≢ delivered
unfolding classify_error
classify_error-failed e h = ground arith

by_status :
    (status : ReceiptStatus) (error : Option Str)
    → IsCoded status error
    → (classify_by_status status error ≡ delivered) ↔ (error ≡ none)
unfolding classify_by_status
by_status says_ok error coded = (λ h. coded, λ h. refl)
by_status says_error error (c, s, e) = (λ h. absurd (classify_error-failed _ h), λ h. cc)

-- A receipt that was accepted counts as delivered exactly when it names no error.
pub classify_receipt-delivered :
    (raw : Json) (r : Receipt)
    → normalize_receipt raw ≡ some r
    → (classify_receipt r ≡ delivered) ↔ (r.error ≡ none)
unfolding classify_receipt
classify_receipt-delivered raw r h =
    let coded = (normalize_receipt-IsWellFormed raw r h).2 in by_status r.status r.error coded

add_receipt_lem :
    (id : Str) (receipt : Option Receipt) (rest : Option Receipts) (receipts : Receipts)
    → add_receipt id receipt rest ≡ some receipts
    → (r : Receipt) × (rs : Receipts) × (receipt ≡ some r)
      × (rest ≡ some rs)
      × (receipts ≡ (id, r) ∷ rs)
unfolding add_receipt
add_receipt_lem id none rest receipts h = cc
add_receipt_lem id (some r) none receipts h = cc
add_receipt_lem id (some r) (some rs) receipts h = (r, rs, refl, refl, cc)

no_receipt : (id : Str) (r : Receipt) → receipt_of id [] ≢ some r
unfolding receipt_of
no_receipt id r h = cc

found_first :
    (data_fields : Fields) (ids : List Str) (ticket_id id : Str) (raw : Json) (r r' : Receipt)
    (rs : Receipts)
    → member ticket_id data_fields ≡ some raw
    → normalize_receipt raw ≡ some r'
    → receipt_of id ((ticket_id, r') ∷ rs) ≡ some r
    → (receipt_of id rs ≡ some r
        → (raw' : Json) × (member id data_fields ≡ some raw') × (normalize_receipt raw' ≡ some r))
    → (raw' : Json) × (member id data_fields ≡ some raw') × (normalize_receipt raw' ≡ some r)
unfolding receipt_of
found_first data_fields ids ticket_id id raw r r' rs present normal found later =
    elim (Bool-cases (str_eq ticket_id id)) [
      | inl same ↦
          let eq : ticket_id ≡ id = str_eq→eq ticket_id id same in
          let this : r' ≡ r = ground arith in (raw, rw (← eq) present, rw (← this) normal)
      | inr other ↦ later (ground arith)
    ]

-- What is looked up in an accepted payload is the checked form of what the service said of that id.
pub receipt_of-normalize_each :
    (data_fields : Fields) (ids : List Str) (receipts : Receipts) (id : Str) (r : Receipt)
    → normalize_each data_fields ids ≡ some receipts
    → receipt_of id receipts ≡ some r
    → (raw : Json) × (member id data_fields ≡ some raw) × (normalize_receipt raw ≡ some r)
unfolding normalize_each
receipt_of-normalize_each data_fields [] receipts id r h found =
    let empty : receipts ≡ [] = cc in absurd (no_receipt id r (rw empty at found))
receipt_of-normalize_each data_fields (ticket_id ∷ ids) receipts id r h found =
    elim (Option-cases (member ticket_id data_fields)) [
      | inl absent ↦
          receipt_of-normalize_each data_fields ids receipts id r (rw (absent, normalize_each) at h)
            found
      | inr (raw, present) ↦
          let (r', rs, normal, rest, all_of_them) =
            add_receipt_lem ticket_id (normalize_receipt raw) (normalize_each data_fields ids)
              receipts (rw (present, normalize_each) at h) in
          found_first data_fields ids ticket_id id raw r r' rs present normal
            (rw all_of_them at found)
            (λ later. receipt_of-normalize_each data_fields ids rs id r rest later)
    ]
