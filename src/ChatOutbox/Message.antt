-- ===== src/ChatOutbox/Message.antt =====
-- The messages of the outbox, from JSON and to it: mobile/src/shared/lib/chatOutbox.ts. Properties
-- of a stored object that are not the outbox's own are not kept here.
pub mod Laws
pub mod Codec
pub mod Examples
mod Tests
use etkin_link.Base.{
  ℕ, zero, suc, ◌+◌, ◌-◌, ◌*◌, ◌/◌, ◌^◌, min, Bool, true, false, not, ◌&&◌, ◌||◌, List, [], ◌∷◌,
  Option, none, some, ltb, leb, if◌then◌else◌, length, keep, map, drop, take_last,
}
use etkin_link.Int.{ℤ, pos, negsuc, ◌+ℤ◌, ◌-ℤ◌, leb_ℤ}
use etkin_link.Text.{Str, codes, str_eq}
use etkin_link.Json.{
  Json, null, bool, int, fraction, str, arr, obj, Items, nil, cons, Fields, end, field, elems,
  member,
}

abbrev pub max_messages : ℕ
max_messages = 40

abbrev pub max_attempts : ℕ
max_attempts = 5

abbrev pub max_age_ms : ℕ
max_age_ms = 7 * 24 * 60 * 60_000

abbrev pub max_serialized_characters : ℕ
max_serialized_characters = 48_000

pub data OutboxKind : Type 0 where
  room direct : OutboxKind

-- A number: whole, or another, by its identity.
pub data Count : Type 0 where
  whole : ℤ → Count
  broken : ℕ → Count

pub record OutboxMessage : Type 0 where
  pub owner_id : Str
  pub kind : OutboxKind
  pub context_id : Str
  pub client_message_id : Str
  pub body : Str
  pub created_at : Str
  pub attempt : Count
  pub next_attempt_at : Str
  pub dead_lettered_at : Option Str

-- What the platform does: JSON, dates, and the numbers that are not whole.
pub record Device : Type 0 where
  pub parse_json : Str → Option Json  -- `none` is a SyntaxError
  pub stringify : Json → Str
  pub date_parse : Str → Option ℤ  -- `new Date(text).getTime()`; `none` is NaN
  pub to_iso_string : ℤ → Str
  pub next_broken : ℕ → ℕ  -- `attempt + 1`
  pub broken_at_least : ℕ → ℕ → Bool
  pub broken_delay : ℕ → ℕ  -- `Math.min(60 * 60_000, 2 ** attempt * 1_000)`, cut to a whole number

pub text_of : Option Json → Option Str
text_of (some (str s)) = some s
text_of _ = none

-- A text, or no such property; the outer `none` is anything else.
pub optional_text_of : Option Json → Option (Option Str)
optional_text_of none = some none
optional_text_of (some (str s)) = some (some s)
optional_text_of (some _) = none

pub count_of : Option Json → Option Count
count_of (some (int n)) = some (whole n)
count_of (some (fraction n)) = some (broken n)
count_of _ = none

pub kind_of : Option Json → Option OutboxKind
unfolding str_eq
kind_of (some (str s)) =
    if str_eq s (codes "room")
    then some room
    else if str_eq s (codes "direct")
    then some direct
    else none
kind_of _ = none

pub join_message :
    Option Str
    → Option OutboxKind
    → Option Str
    → Option Str
    → Option Str
    → Option Str
    → Option Count
    → Option Str
    → Option (Option Str)
    → Option OutboxMessage
join_message (some o) (some k) (some c) (some i) (some b) (some t) (some a) (some n) (some d) =
    some (record {
      owner_id = o;
      kind = k;
      context_id = c;
      client_message_id = i;
      body = b;
      created_at = t;
      attempt = a;
      next_attempt_at = n;
      dead_lettered_at = d;
    })
join_message _ _ _ _ _ _ _ _ _ = none

-- `isValidMessage`, which says which values are messages.
pub read_message : Json → Option OutboxMessage
unfolding text_of optional_text_of count_of kind_of join_message member
read_message (obj record_fields) =
    join_message (text_of (member (codes "ownerId") record_fields))
      (kind_of (member (codes "kind") record_fields))
      (text_of (member (codes "contextId") record_fields))
      (text_of (member (codes "clientMessageId") record_fields))
      (text_of (member (codes "body") record_fields))
      (text_of (member (codes "createdAt") record_fields))
      (count_of (member (codes "attempt") record_fields))
      (text_of (member (codes "nextAttemptAt") record_fields))
      (optional_text_of (member (codes "deadLetteredAt") record_fields))
read_message _ = none

-- `.filter(isValidMessage)`
pub valid_messages : List Json → List OutboxMessage
unfolding read_message
valid_messages [] = []
valid_messages (v ∷ vs) =
    let rest = valid_messages vs in elim (read_message v) [ none ↦ rest | some m ↦ m ∷ rest ]

abbrev pub kind_json : OutboxKind → Json
kind_json room = str (codes "room")
kind_json direct = str (codes "direct")

abbrev pub count_json : Count → Json
count_json (whole n) = int n
count_json (broken n) = fraction n

-- `undefined` is left out.
abbrev pub dead_lettered_fields : Option Str → Fields
dead_lettered_fields none = end
dead_lettered_fields (some t) = field (codes "deadLetteredAt") (str t) end

abbrev pub message_json : OutboxMessage → Json
message_json m = obj (
    field (codes "ownerId") (str m.owner_id) (
      field (codes "kind") (kind_json m.kind) (
        field (codes "contextId") (str m.context_id) (
          field (codes "clientMessageId") (str m.client_message_id) (
            field (codes "body") (str m.body) (
              field (codes "createdAt") (str m.created_at) (
                field (codes "attempt") (count_json m.attempt) (
                  field (codes "nextAttemptAt") (str m.next_attempt_at)
                    (dead_lettered_fields m.dead_lettered_at)))))))))

abbrev pub items_json : List OutboxMessage → Items
items_json [] = nil
items_json (m ∷ ms) = cons (message_json m) (items_json ms)

module _ (device : Device) where
  pub serialize : List OutboxMessage → Str
  serialize messages = device.stringify (arr (items_json messages))

  -- `new Date(text).getTime() >= cutoff`
  pub not_before : ℤ → Str → Bool
  not_before cutoff text = elim (device.date_parse text) [ none ↦ false | some t ↦ leb_ℤ cutoff t ]

  pub recent_messages : ℤ → Option Json → Option (List OutboxMessage)
  unfolding valid_messages not_before
  recent_messages now (some (arr items)) = some (
      take_last max_messages (
        keep (λ (m : OutboxMessage). not_before (now -ℤ pos max_age_ms) m.created_at)
          (valid_messages (elems items))))
  recent_messages now _ = none

  -- `none` is `null`: what is stored is not a list.
  pub parse_messages : ℤ → Option Str → Option (List OutboxMessage)
  unfolding recent_messages
  parse_messages now none = some []
  parse_messages now (some []) = some []
  parse_messages now (some (c ∷ raw)) = recent_messages now (device.parse_json (c ∷ raw))

  -- The loop that drops messages from the front; what is left is one message shorter each time.
  pub drop_until_fits : List OutboxMessage → List OutboxMessage
  unfolding serialize
  drop_until_fits [] = []
  drop_until_fits (m ∷ rest) =
      let shorter = drop_until_fits rest in
      if ltb max_serialized_characters (length (serialize (m ∷ rest))) then shorter else m ∷ rest

  pub fit_storage_limit : List OutboxMessage → List OutboxMessage
  unfolding drop_until_fits
  fit_storage_limit messages = drop_until_fits (take_last max_messages messages)

  pub next_count : Count → Count
  next_count (whole n) = whole (n +ℤ pos 1)
  next_count (broken n) = broken (device.next_broken n)

  pub at_least : Count → ℕ → Bool
  at_least (whole n) k = leb_ℤ (pos k) n
  at_least (broken n) k = device.broken_at_least n k

  -- `Math.min(60 * 60_000, 2 ** attempt * 1_000)`; a date cuts it to a whole number.
  pub retry_delay_ms : Count → ℕ
  retry_delay_ms (whole (pos n)) = min (60 * 60_000) (2 ^ n * 1_000)
  retry_delay_ms (whole (negsuc n)) = 1_000 / 2 ^ suc n
  retry_delay_ms (broken n) = device.broken_delay n
