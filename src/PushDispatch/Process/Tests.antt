-- ===== src/PushDispatch/Process/Tests.antt =====
-- One notification to two phones, one of which has had it; the service answers with a ticket.
use etkin_link.Base.{◌≡◌, refl, true, false, [], ◌∷◌, none, some}
use etkin_link.Int.{pos}
use etkin_link.Text.{Str, codes}
use etkin_link.Json.{Json, str, obj, field, end}
use etkin_link.Http.{Platform, bytes, not_finite, Reply}
use etkin_link.PushDispatch.Outcome.{PushToken, ios}
use etkin_link.PushDispatch.Process.{ClaimedNotification, Dependencies, retry_delay_ms}

abbrev phone : Str → PushToken
phone id = record { id = id; token = id; platform = ios }

abbrev claimed : ClaimedNotification
claimed = record {
  event = record {
    id = codes "e";
    user_id = codes "u";
    kind = codes "system";
    route_kind = none;
    route_id = none;
    title = codes "Hi";
    body = codes "there";
    payload = end;
    channel_id = codes "rooms";
    attempt_count = 9;
  };
  tokens = phone (codes "a") ∷ phone (codes "b") ∷ [];
}

abbrev reply : Reply
reply = record {
  status = 200;
  header = λ name. some (codes "application/json");
  body = some (record { chunks = bytes [] ∷ []; cancel_fails = false });
}

abbrev payload : Json
payload = obj (
    field (codes "data")
      (obj (field (codes "status") (str (codes "ok")) (field (codes "id") (str (codes "t")) end)))
      end)

abbrev platform : Platform
platform = record {
  decode_stream = λ held input. some (input, []);
  decode_end = λ held. some [];
  parse_json = λ text. some payload;
  date_parse = λ text. none;
  number = λ text. not_finite;
}

abbrev deps : Dependencies (Unit {0})
deps = record {
  completed = λ id ids w. (some (codes "a" ∷ []), w);
  update = λ id update w. (true, w);
  upsert = λ id rows w. (true, w);
  disable = λ ids w. (true, w);
  fetch = λ messages w. (some reply, w);
  sleep = λ d w. (tt, w);
  now = λ w. (pos 0, w);
  jitter = λ w. (0, w);
}

-- The delay between the tries stops growing after the sixth.
capped : retry_delay_ms 9 ≡ 3_840_000
unfolding retry_delay_ms
capped = refl
