-- ===== src/PushDispatch/Tickets/Tests.antt =====
-- The answer to one message: a single ticket, not in a list.
use etkin_link.Base.{◌≡◌, refl, [], ◌∷◌, none, some, length, All}
use etkin_link.Text.{codes, str_eq, trim}
use etkin_link.Json.{Json, str, obj, field, end, member}
use etkin_link.PushReceipts.Receipt.{
  says_ok, bounded_optional_string, optional_text, details_error, receipt_status,
}
use etkin_link.PushDispatch.Tickets.{
  ExpoTicket, ticket_fits, non_empty, join_ticket, normalize_ticket, add_ticket, normalize_all,
  raw_tickets, normalize_data, normalize_expo_tickets, IsUsable, normalize_expo_tickets-IsUsable,
}

abbrev payload : Json
payload = obj (
    field (codes "data")
      (obj (field (codes "status") (str (codes "ok")) (field (codes "id") (str (codes "t1")) end)))
      end)

abbrev ticket : ExpoTicket
ticket = record { status = says_ok; id = some (codes "t1"); message = none; error = none }

read : normalize_expo_tickets payload 1 ≡ some (ticket ∷ [])
unfolding normalize_expo_tickets normalize_data normalize_all raw_tickets add_ticket
    normalize_ticket join_ticket ticket_fits non_empty member str_eq trim bounded_optional_string
    optional_text details_error receipt_status
read = refl

normalize_expo_tickets-IsUsable_example : (length (ticket ∷ []) ≡ 1) × All IsUsable (ticket ∷ [])
normalize_expo_tickets-IsUsable_example =
    normalize_expo_tickets-IsUsable payload 1 (ticket ∷ []) read
