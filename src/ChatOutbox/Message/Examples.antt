-- ===== src/ChatOutbox/Message/Examples.antt =====
-- A platform and some messages, for the examples. A date is the text of one code unit, its time.
use etkin_link.Base.{◌≡◌, refl, false, [], ◌∷◌, Option, none, some, arith}
use etkin_link.Int.{ℤ, pos, negsuc, ◌-ℤ◌}
use etkin_link.Text.{Str, codes}
use etkin_link.ChatOutbox.Message.{OutboxMessage, direct, room, whole, Device, not_before}
use etkin_link.ChatOutbox.Message.Laws.{IsJson, IsRecent, IsStorable}
use etkin_link.ChatOutbox.Message.Codec.{
  stringify, parse_text, parse_text-stringify, parse_text_empty,
}

abbrev pub date_of : Str → Option ℤ
date_of (t ∷ []) = some (pos t)
date_of _ = none

abbrev pub text_of_date : ℤ → Str
text_of_date (pos n) = n ∷ []
text_of_date (negsuc n) = []

abbrev pub phone : Device
phone = record {
  parse_json = parse_text;
  stringify = stringify;
  date_parse = date_of;
  to_iso_string = text_of_date;
  next_broken = λ n. n;
  broken_at_least = λ n k. false;
  broken_delay = λ n. 1000;
}

pub phone-IsJson : IsJson phone
phone-IsJson = record { reads = parse_text-stringify; empty = parse_text_empty }

abbrev pub greeting : OutboxMessage
greeting = record {
  owner_id = codes "ada";
  kind = direct;
  context_id = codes "bo";
  client_message_id = codes "m1";
  body = codes "hello";
  created_at = 900 ∷ [];
  attempt = whole (pos 0);
  next_attempt_at = 900 ∷ [];
  dead_lettered_at = none;
}

abbrev pub answer : OutboxMessage
answer = record greeting { kind = room; client_message_id = codes "m2"; body = codes "yes" }

-- The clock of the examples stands still.
abbrev pub Noon : ℤ → Type 0
Noon now = now ≡ pos 1000

pub greeting-IsRecent : IsRecent phone (pos 1000) greeting
unfolding not_before ◌-ℤ◌
greeting-IsRecent = refl

pub answer-IsRecent : IsRecent phone (pos 1000) answer
unfolding not_before ◌-ℤ◌
answer-IsRecent = refl

pub both-IsStorable : IsStorable phone (pos 1000) (greeting ∷ answer ∷ [])
both-IsStorable = (omega arith, (greeting-IsRecent, (answer-IsRecent, tt)))

pub both-IsStorable-Noon : (now : ℤ) → Noon now → IsStorable phone now (greeting ∷ answer ∷ [])
both-IsStorable-Noon now e = rw e both-IsStorable
