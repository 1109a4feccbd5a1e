-- ===== src/ExpoHttp/Tests.antt =====
-- A service that is overloaded once and asks for a long pause, then answers.
use etkin_link.Base.{ℕ, suc, String, [], ◌∷◌, Option, none, some, ◌≤◌}
use text.Mathlib.Text.{◌==◌ as str_is}
use etkin_link.Base.{if◌then◌else◌, ◌==◌, false}
use etkin_link.Int.{pos}
use etkin_link.Text.{Str, codes}
use etkin_link.Json.{null}
use etkin_link.Http.{Platform, bytes, Reply, whole}
use etkin_link.Effect.Protocol.{Follows, Ends}
use etkin_link.ExpoHttp.{Options, fetch_expo_json_with_retry, given_attempts}
use etkin_link.ExpoHttp.Progress.{Allowed, observe, fresh, Returned, Reported}
use etkin_link.ExpoHttp.Retry.{last_progress, fetch_expo_json_with_retry-Follows}

abbrev platform : Platform
platform = record {
  decode_stream = λ held input. some (input, []);
  decode_end = λ held. some [];
  parse_json = λ text. some null;
  date_parse = λ text. none;
  number = λ text. whole (pos 60);
}

abbrev headers : String → Option Str
headers name =
    if str_is name "content-type"
    then some (codes "application/json")
    else if str_is name "retry-after"
    then some (codes "60")
    else none

abbrev reply : ℕ → Reply
reply status = record {
  status = status;
  header = headers;
  body = some (record { chunks = bytes (codes "{}") ∷ []; cancel_fails = false });
}

-- The world counts the tries.
abbrev options : Options ℕ
options = record {
  fetch = λ n. (some (if n == 0 then reply 503 else reply 200), suc n);
  sleep = λ d n. (tt, n);
  now = λ n. (pos 0, n);
  jitter = λ n. (7, n);
  max_response_bytes = 64;
  attempts = none;
}

fetch_expo_json_with_retry-Follows_example :
    (given_attempts options.attempts ≤ 3)
    × Follows
        (Allowed (given_attempts options.attempts))
        observe
        fresh
        (fetch_expo_json_with_retry platform options 0).1
    × Ends
        (Returned platform options)
        (Reported platform options (given_attempts options.attempts))
        (fetch_expo_json_with_retry platform options 0).0
        (last_progress (fetch_expo_json_with_retry platform options 0).1)
fetch_expo_json_with_retry-Follows_example = fetch_expo_json_with_retry-Follows platform options 0
