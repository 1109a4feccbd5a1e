-- ===== src/ExpoHttp.antt =====
-- Calls of the push service with retries: supabase/functions/_shared/expoHttp.ts. The network, the
-- timer, the clock and the random source are a world.
pub mod Progress
pub mod Retry
mod Tests
use etkin_link.Base.{
  ℕ, zero, suc, ◌+◌, ◌*◌, ◌^◌, min, max, String, Bool, true, false, not, ◌&&◌, ◌||◌, List, [], ◌∷◌,
  Option, none, some, leb, ◌==◌, if◌then◌else◌,
}
use etkin_link.Int.{ℤ, pos, negsuc, scale, ◌-ℤ◌, clip}
use etkin_link.Text.{Str, trim}
use etkin_link.Json.{Json}
use etkin_link.Http.{Platform, Number, not_finite, whole, broken_number, Reply, is_ok}
use etkin_link.BoundedJson.{ReadError, read_bounded_json_response}
use etkin_link.Effect.{Result, ok, err, Act, pure, throw, call, ◌>>=◌, ◌>>◌, throw_if}

abbrev pub max_retry_after_ms : ℕ
max_retry_after_ms = 10_000

abbrev pub default_attempts : ℤ
default_attempts = pos 3

-- The message of an `ExpoHttpError`.
pub data Complaint : Type 0 where
  answer_not_json request_failed network_unreachable request_unfinished : Complaint

pub data Failure : Type 0 where
  expo_http_error : Complaint → (status : Option ℕ) → Failure
  unreadable : ReadError → Failure  -- passed on

unfoldable pub is_transient_expo_status : ℕ → Bool
is_transient_expo_status status =
    status == 408 || status == 429 || (leb 500 status && leb status 599)

-- `Math.min(Math.max(n, 0), MAX_RETRY_AFTER_MS)`
unfoldable pub bounded_delay : ℤ → ℕ
bounded_delay (pos n) = min n max_retry_after_ms
bounded_delay (negsuc n) = 0

module _ (platform : Platform) where
  date_delay : Str → ℤ → Option ℕ
  date_delay header now_ms = elim (platform.date_parse header) [
    | none ↦ none
    | some date_ms ↦ some (bounded_delay (date_ms -ℤ now_ms))
  ]

  -- A number that is negative or not finite is tried as a date.
  seconds_delay : Number → Str → ℤ → Option ℕ
  seconds_delay not_finite header now_ms = date_delay header now_ms
  seconds_delay (whole (pos n)) header now_ms = some (min (n * 1000) max_retry_after_ms)
  seconds_delay (whole (negsuc n)) header now_ms = date_delay header now_ms
  seconds_delay (broken_number (pos n) thousandfold) header now_ms =
      some (bounded_delay thousandfold)
  seconds_delay (broken_number (negsuc n) thousandfold) header now_ms = date_delay header now_ms

  pub parse_retry_after_ms : Option Str → ℤ → Option ℕ
  parse_retry_after_ms none now_ms = none
  parse_retry_after_ms (some []) now_ms = none
  parse_retry_after_ms (some (c ∷ s)) now_ms =
      seconds_delay (platform.number (trim (c ∷ s))) (c ∷ s) now_ms

-- The requests of the routine; a reply `none` is a rejected promise.
pub data Call : Type 0 where
  fetched : Option Reply → Call
  slept : ℕ → Call
  clock : ℤ → Call
  drawn : ℕ → Call

pub record Options (W : Type 0) : Type 0 where
  pub fetch : W → Option Reply × W
  pub sleep : ℕ → W → Unit {0} × W
  pub now : W → ℤ × W
  pub jitter : W → ℕ × W  -- `Math.floor(random() * 150)`
  pub max_response_bytes : ℕ
  pub attempts : Option ℤ

-- `Math.min(Math.max(attempts ?? DEFAULT_ATTEMPTS, 1), 3)`
unfoldable pub attempts_within : ℤ → ℕ
attempts_within (pos n) = min (max n 1) 3
attempts_within (negsuc n) = 1

abbrev pub given_attempts : Option ℤ → ℕ
given_attempts none = attempts_within default_attempts
given_attempts (some n) = attempts_within n

abbrev pub retry_after_header : Option Reply → Option Str
retry_after_header none = none
retry_after_header (some reply) = reply.header "retry-after"

module _ {W : Type 0} (platform : Platform) (options : Options W) where
  abbrev pub Step : Type 0 → Type 0
  Step A = Act W Call Failure A

  pub own_delay : ℕ → Option ℕ → Step ℕ
  own_delay attempt (some retry_after) = pure retry_after
  own_delay attempt none = do
    extra ← call options.jitter drawn
    pure (min (300 * 2 ^ attempt + extra) 2_000)

  pub retry_delay_ms : ℕ → Option Reply → Step ℕ
  retry_delay_ms attempt response = do
    now ← call options.now clock
    own_delay attempt (parse_retry_after_ms platform (retry_after_header response) now)

  -- `await options.sleep(retryDelayMs(attempt, response, random))`
  pub pause : ℕ → Option Reply → Step (Unit {0})
  pause attempt response = do
    delay ← retry_delay_ms attempt response
    call (options.sleep delay) (λ _. slept delay)

  -- What follows the last statement of the loop.
  pub give_up : Bool → Step Json
  give_up saw_network_error =
      throw (
        expo_http_error (if saw_network_error then network_unreachable else request_unfinished)
          none)

  -- The answer has a JSON body. `again` is the next round, if there is one.
  pub judge_payload : Option (Step Json) → ℕ → Reply → Json → Step Json
  judge_payload none attempt response payload =
      if is_ok response
      then pure payload
      else throw (expo_http_error request_failed (some response.status))
  judge_payload (some again) attempt response payload =
      if is_ok response
      then pure payload
      else if is_transient_expo_status response.status
      then (pause attempt (some response) >> again)
      else throw (expo_http_error request_failed (some response.status))

  -- The body could not be read.
  pub judge_error : Option (Step Json) → ℕ → Reply → ReadError → Step Json
  judge_error none attempt response error =
      if is_transient_expo_status response.status
      then throw (expo_http_error answer_not_json (some response.status))
      else throw (unreadable error)
  judge_error (some again) attempt response error =
      if is_transient_expo_status response.status
      then (pause attempt (some response) >> again)
      else throw (unreadable error)

  pub judge_body : Option (Step Json) → ℕ → Reply → Result ReadError (Str × Json) → Step Json
  judge_body again attempt response (ok (text, payload)) =
      judge_payload again attempt response payload
  judge_body again attempt response (err error) = judge_error again attempt response error

  pub judge_reply : Option (Step Json) → ℕ → Option Reply → Step Json
  judge_reply again attempt (some response) =
      judge_body again attempt response
        (read_bounded_json_response platform response options.max_response_bytes)
  judge_reply none attempt none = give_up true
  judge_reply (some again) attempt none = pause attempt none >> again

  -- The rounds after the first, if any are left.
  pub fetch_loop : ℕ → ℕ → Bool → Step Json
  fetch_loop zero attempt saw_network_error = give_up saw_network_error
  fetch_loop (suc zero) attempt saw_network_error = do
    reply ← call options.fetch fetched
    judge_reply none attempt reply
  fetch_loop (suc (suc left)) attempt saw_network_error = do
    reply ← call options.fetch fetched
    judge_reply
        (some (
          fetch_loop (suc left) (suc attempt)
            (saw_network_error || elim reply [ none ↦ true | some _ ↦ false ])))
        attempt reply

  pub fetch_expo_json_with_retry : Step Json
  fetch_expo_json_with_retry = fetch_loop (given_attempts options.attempts) 0 false
