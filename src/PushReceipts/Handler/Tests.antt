-- ===== src/PushReceipts/Handler/Tests.antt =====
-- A run of the receipt worker over one delivery.
use etkin_link.Base.{String, true, false, [], ◌∷◌, Option, none, some, replicate, if◌then◌else◌}
use text.Mathlib.Text.{◌==◌ as str_is}
use etkin_link.Text.{Str, codes, decimal}
use etkin_link.Json.{obj, end}
use etkin_link.Http.{Platform, bytes, not_finite, Request, Reply}
use etkin_link.Effect.Protocol.{Follows, Ends, after}
use etkin_link.WorkerAuth.{Crypto, create_worker_signature}
use etkin_link.PushReceipts.Handler.{PendingDelivery, Dependencies, handle_push_receipts}
use etkin_link.PushReceipts.Handler.Safety.{fresh, observe, Allowed, Reported}
use etkin_link.PushReceipts.Handler.Protocol.{handle_push_receipts-Follows}

abbrev secret : Str
secret = replicate 32 b's'

abbrev delivery : PendingDelivery
delivery = record {
  id = codes "d1";
  expo_ticket_id = codes "t1";
  push_token_id = codes "p1";
  receipt_attempt_count = none;
  receipt_lease_id = codes "l1";
}

abbrev crypto : Crypto
crypto = record { encode = λ s. s; hmac = λ key message. replicate 32 171 }

abbrev nonce : Str
nonce = codes "0a0a0a0a-1111-4222-8333-444444444444"

abbrev body : Str
body = codes "{}"

abbrev headers : String → Option Str
headers name =
    if str_is name "content-type"
    then some (codes "application/json")
    else if str_is name "content-length"
    then none
    else if str_is name "x-push-worker-timestamp"
    then some (codes "1700000000")
    else if str_is name "x-push-worker-nonce"
    then some nonce
    else some (
        create_worker_signature crypto secret (decimal (codes "1700000000")) nonce
          (codes "push-receipts") body)

abbrev request : Request
request = record {
  method = codes "POST";
  header = headers;
  body = some (record { chunks = bytes body ∷ []; cancel_fails = false });
}

-- The answer of the service has no data, which is a fault of its protocol.
abbrev reply : Reply
reply = record { status = 200; header = headers; body = request.body }

abbrev deps : Dependencies (Unit {0})
deps = record {
  supabase_url = some (codes "https://db");
  service_role_key = some (codes "key");
  worker_secret = some secret;
  now = λ w. (1_700_000_123_000, w);
  consume = λ a w. (some (some true), w);
  claim = λ size w. (some (delivery ∷ []), w);
  fetch = λ ids w. (some reply, w);
  sleep = λ d w. (tt, w);
  jitter = λ w. (0, w);
  persist_result = λ d state code message w. (some true, w);
}

abbrev platform : Platform
platform = record {
  decode_stream = λ held input. some (input, []);
  decode_end = λ held. some [];
  parse_json = λ text. some (obj end);
  date_parse = λ text. none;
  number = λ text. not_finite;
}

handle_push_receipts-Follows_example :
    Follows
      (Allowed crypto request secret)
      observe
      fresh
      (handle_push_receipts platform crypto deps request tt).1
    × Ends Reported Reported
        (handle_push_receipts platform crypto deps request tt).0
        (after observe fresh (handle_push_receipts platform crypto deps request tt).1)
handle_push_receipts-Follows_example = handle_push_receipts-Follows platform crypto deps request tt
