-- ===== src/PushDispatch/Tickets.antt =====
-- The tickets that the push service gives for a request: supabase/functions/push-dispatch/index.ts.
mod Tests
use etkin_link.Base.{
  ℕ, zero, suc, ◌+◌, ◌≤◌, ◌≡◌, ◌≢◌, refl, Bool, true, false, not, ◌&&◌, ◌||◌, List, [], ◌∷◌, Option,
  none, some, leb, ◌==◌, ==_iff, if◌then◌else◌, length, All, arith, Bool-cases, inl, inr,
}
use etkin_link.Text.{Str, codes, trim}
use etkin_link.Json.{Json, null, bool, int, fraction, arr, str, obj, Items, Fields, elems, member}
use etkin_link.PushReceipts.Receipt.{
  ReceiptStatus, says_ok, says_error, bounded_optional_string, optional_text, details_error,
  receipt_status,
}
use etkin_link.PushReceipts.Receipt.Laws.{IsWithin, optional_text-IsWithin, details_error-IsWithin}

-- Read as a receipt is, with an identifier.
pub record ExpoTicket : Type 0 where
  pub status : ReceiptStatus
  pub id : Option Str
  pub message : Option Str
  pub error : Option Str

-- A ticket of a success has an identifier that is not blank, and no error.
pub ticket_fits : ReceiptStatus → Option Str → Option Str → Bool
ticket_fits says_ok (some id) none = not (length (trim id) == 0)
ticket_fits says_ok _ _ = false
ticket_fits says_error id error = true

-- `id ? { id } : {}`
pub non_empty : Option Str → Option Str
non_empty (some (c ∷ s)) = some (c ∷ s)
non_empty _ = none

pub join_ticket :
    Option ReceiptStatus
    → Option (Option Str)
    → Option (Option Str)
    → Option Str
    → Option ExpoTicket
unfolding ticket_fits non_empty
join_ticket (some status) (some message) (some error) id =
    if ticket_fits status id error
    then some (record { status = status; id = non_empty id; message = message; error = error })
    else none
join_ticket _ _ _ id = none

pub normalize_ticket : Json → Option ExpoTicket
unfolding join_ticket member
normalize_ticket (obj candidate) =
    join_ticket (receipt_status (member (codes "status") candidate))
      (optional_text (member (codes "message") candidate) 500)
      (details_error (member (codes "details") candidate))
      (bounded_optional_string (member (codes "id") candidate) 256)
normalize_ticket _ = none

pub add_ticket : Option ExpoTicket → Option (List ExpoTicket) → Option (List ExpoTicket)
add_ticket (some ticket) (some tickets) = some (ticket ∷ tickets)
add_ticket _ _ = none

-- `rawTickets.map(...)`, where any error is thrown on
pub normalize_all : List Json → Option (List ExpoTicket)
unfolding add_ticket normalize_ticket
normalize_all [] = some []
normalize_all (raw ∷ rest) = add_ticket (normalize_ticket raw) (normalize_all rest)

-- `Array.isArray(rawData) ? rawData : [rawData]`
pub raw_tickets : Json → List Json
raw_tickets (arr items) = elems items
raw_tickets value = value ∷ []

pub normalize_data : Option Json → ℕ → Option (List ExpoTicket)
unfolding normalize_all raw_tickets
normalize_data none expected_count = none
normalize_data (some raw) expected_count =
    if length (raw_tickets raw) == expected_count then normalize_all (raw_tickets raw) else none

-- `none` is a thrown error.
pub normalize_expo_tickets : Json → ℕ → Option (List ExpoTicket)
unfolding normalize_data member
normalize_expo_tickets (obj payload) expected_count =
    normalize_data (member (codes "data") payload) expected_count
normalize_expo_tickets _ expected_count = none

abbrev pub IsIdentified : ReceiptStatus → Option Str → Option Str → Type 0
IsIdentified says_ok id error = ((s : Str) × (id ≡ some s) × (length (trim s) ≢ 0)) × (error ≡ none)
IsIdentified says_error id error = Unit

abbrev pub IsUsable : ExpoTicket → Type 0
IsUsable ticket =
    IsWithin 256 ticket.id
    × IsWithin 500 ticket.message
    × IsWithin 120 ticket.error
    × IsIdentified ticket.status ticket.id ticket.error

bounded_lem :
    (value : Option Json) (n : ℕ) → IsWithin n (non_empty (bounded_optional_string value n))
unfolding bounded_optional_string non_empty
bounded_lem none n = tt
bounded_lem (some (str [])) n = ground arith
bounded_lem (some (str (c ∷ s))) n = ground arith
bounded_lem (some null) n = tt
bounded_lem (some (bool b)) n = tt
bounded_lem (some (int i)) n = tt
bounded_lem (some (fraction i)) n = tt
bounded_lem (some (arr items)) n = tt
bounded_lem (some (obj fields)) n = tt

not_blank : (n : ℕ) → not (n == 0) ≡ true → n ≢ 0
not_blank n h e = ground arith

ticket_fits-IsIdentified :
    (status : ReceiptStatus) (id error : Option Str)
    → ticket_fits status id error ≡ true
    → IsIdentified status (non_empty id) error
unfolding ticket_fits non_empty trim
ticket_fits-IsIdentified says_error id error h = tt
ticket_fits-IsIdentified says_ok none error h = cc
ticket_fits-IsIdentified says_ok (some id) (some e) h = cc
ticket_fits-IsIdentified says_ok (some []) none h = cc
ticket_fits-IsIdentified says_ok (some (c ∷ s)) none h =
    ((c ∷ s, refl, λ e. absurd (not_blank (length (trim (c ∷ s))) h e)), refl)

add_ticket_lem :
    (ticket : Option ExpoTicket) (rest : Option (List ExpoTicket)) (tickets : List ExpoTicket)
    → add_ticket ticket rest ≡ some tickets
    → (t : ExpoTicket) × (ts : List ExpoTicket) × (ticket ≡ some t)
      × (rest ≡ some ts)
      × (tickets ≡ t ∷ ts)
unfolding add_ticket
add_ticket_lem none rest tickets h = cc
add_ticket_lem (some t) none tickets h = cc
add_ticket_lem (some t) (some ts) tickets h = (t, ts, refl, refl, cc)

join_ticket-IsUsable :
    (status : Option ReceiptStatus) (message error : Option (Option Str)) (id : Option Str)
    (t : ExpoTicket)
    → IsWithin 256 (non_empty id)
    → ((m : Option Str) → message ≡ some m → IsWithin 500 m)
    → ((e : Option Str) → error ≡ some e → IsWithin 120 e)
    → join_ticket status message error id ≡ some t
    → IsUsable t
unfolding join_ticket
join_ticket-IsUsable none message error id t hi hm he h = cc
join_ticket-IsUsable (some status) none error id t hi hm he h = cc
join_ticket-IsUsable (some status) (some message) none id t hi hm he h = cc
join_ticket-IsUsable (some status) (some message) (some error) id t hi hm he h =
    let fits : ticket_fits status id error ≡ true = ground arith in
    let same : record { status = status; id = non_empty id; message = message; error = error } ≡ t =
      ground arith in
    rw (← same) (hi, hm message refl, he error refl, ticket_fits-IsIdentified status id error fits)

normalize_ticket-IsUsable :
    (raw : Json) (t : ExpoTicket) → normalize_ticket raw ≡ some t → IsUsable t
unfolding normalize_ticket
normalize_ticket-IsUsable (obj candidate) t h =
    join_ticket-IsUsable _ _ _ _ t (bounded_lem (member (codes "id") candidate) 256)
      (optional_text-IsWithin (member (codes "message") candidate) 500)
      (details_error-IsWithin (member (codes "details") candidate)) h
normalize_ticket-IsUsable null t h = cc
normalize_ticket-IsUsable (bool b) t h = cc
normalize_ticket-IsUsable (int n) t h = cc
normalize_ticket-IsUsable (fraction n) t h = cc
normalize_ticket-IsUsable (str s) t h = cc
normalize_ticket-IsUsable (arr items) t h = cc

normalize_all-IsUsable :
    (raws : List Json) (tickets : List ExpoTicket)
    → normalize_all raws ≡ some tickets
    → (length tickets ≡ length raws) × All IsUsable tickets
unfolding normalize_all
normalize_all-IsUsable [] tickets h = let empty : [] ≡ tickets = cc in rw (← empty) (refl, tt)
normalize_all-IsUsable (raw ∷ rest) tickets h =
    let (t, ts, first, later, all_of_them) =
      add_ticket_lem (normalize_ticket raw) (normalize_all rest) tickets h in
    let (size, usable) = normalize_all-IsUsable rest ts later in
    rw all_of_them (ground (arith, size), (normalize_ticket-IsUsable raw t first, usable))

normalize_data-IsUsable :
    (raw : Option Json) (n : ℕ) (tickets : List ExpoTicket)
    → normalize_data raw n ≡ some tickets
    → (length tickets ≡ n) × All IsUsable tickets
unfolding normalize_data
normalize_data-IsUsable none n tickets h = cc
normalize_data-IsUsable (some raw) n tickets h =
    let usable = normalize_all-IsUsable (raw_tickets raw) tickets in
    (ground (arith, usable), ground (arith, usable))

-- Accepted tickets are as many as the messages, with bounded texts; one of a success has an
-- identifier that is not blank, and no error.
pub normalize_expo_tickets-IsUsable :
    (payload : Json) (n : ℕ) (tickets : List ExpoTicket)
    → normalize_expo_tickets payload n ≡ some tickets
    → (length tickets ≡ n) × All IsUsable tickets
unfolding normalize_expo_tickets
normalize_expo_tickets-IsUsable (obj payload) n tickets h =
    normalize_data-IsUsable (member (codes "data") payload) n tickets h
normalize_expo_tickets-IsUsable null n tickets h = cc
normalize_expo_tickets-IsUsable (bool b) n tickets h = cc
normalize_expo_tickets-IsUsable (int i) n tickets h = cc
normalize_expo_tickets-IsUsable (fraction i) n tickets h = cc
normalize_expo_tickets-IsUsable (str s) n tickets h = cc
normalize_expo_tickets-IsUsable (arr items) n tickets h = cc
