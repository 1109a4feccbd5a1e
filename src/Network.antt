-- ===== src/Network.antt =====
-- Requests of the mobile client that are repeated: mobile/src/shared/lib/network.ts. The network, the
-- timer, the clock, the random source and the signal that aborts are a world.
pub mod Retry
pub mod Body
pub mod Recovery
mod Tests
use etkin_link.Base.{
  ℕ, zero, suc, ◌+◌, ◌-◌, ◌*◌, ◌/◌, ◌^◌, min, Bool, true, false, not, ◌&&◌, ◌||◌, List, [], ◌∷◌,
  map, Option, none, some, leb, ◌==◌, if◌then◌else◌,
}
use etkin_link.Int.{ℤ, pos, negsuc, ◌-ℤ◌, clip}
use etkin_link.Text.{Str, codes, str_eq}
use etkin_link.Http.{Platform, Number, not_finite, whole, broken_number, Reply}
use etkin_link.Effect.{Act, pure, throw, call, ◌>>=◌, ◌>>◌}

-- `toUpperCase` on the ASCII letters; no other letter becomes one of GET or HEAD.
pub upper : ℕ → ℕ
upper c = if leb b'a' c && leb c b'z' then c - 32 else c

-- `init.method ?? requestMethod`
unfoldable pub method_of : Option Str → Option Str → Str
unfolding upper
method_of (some method) request_method = map upper method
method_of none (some method) = map upper method
method_of none none = codes "GET"

unfoldable pub is_idempotent : Str → Bool
unfolding str_eq
is_idempotent method = str_eq method (codes "GET") || str_eq method (codes "HEAD")

-- `Number.isSafeInteger(attempts)` from 1 to 5; `none` is refused.
unfoldable pub attempts_of : Option Number → Option ℕ
attempts_of none = some 3
attempts_of (some (whole (pos n))) = if leb 1 n && leb n 5 then some n else none
attempts_of (some _) = none

module _ (platform : Platform) where
  pub date_delay : Str → ℤ → Option ℕ
  date_delay value now = elim (platform.date_parse value) [
    | none ↦ none
    | some date ↦ some (clip (date -ℤ now))
  ]

  -- Delays are whole milliseconds here.
  pub number_delay : Number → Str → ℤ → Option ℕ
  unfolding date_delay
  number_delay (whole (pos n)) value now = some (n * 1_000)
  number_delay (broken_number (pos n) thousandfold) value now = some (clip thousandfold)
  number_delay _ value now = date_delay value now

  pub parse_retry_after_ms : Option Str → ℤ → Option ℕ
  unfolding number_delay
  parse_retry_after_ms none now = none
  parse_retry_after_ms (some []) now = none
  parse_retry_after_ms (some (c ∷ s)) now = number_delay (platform.number (c ∷ s)) (c ∷ s) now

-- What a call does, each with its reply. A rejected promise is `none`, or `false`.
pub data Call : Type 0 where
  fetched : Option Reply → Call
  signal : (aborted : Bool) → Call
  slept : ℕ → Bool → Call
  clock : ℤ → Call
  drawn : ℕ → Call
  cancelled : Call

pub data Failure : Type 0 where
  method_refused attempts_refused unexpected_end : Failure
  network_error abort_error : Failure

pub record Options (W : Type 0) : Type 0 where
  pub fetch : W → Option Reply × W
  pub aborted : W → Bool × W
  pub sleep : ℕ → W → Bool × W
  pub now : W → ℤ × W
  pub random : W → ℕ × W  -- a number below 2 ^ 53, in parts of 2 ^ 53
  pub cancel : Reply → W → Unit {0} × W
  pub attempts : Option Number
  pub base_delay_ms : ℕ
  pub maximum_retry_after_ms : ℕ

unfoldable pub is_retriable : Reply → Bool
is_retriable response = response.status == 429 || leb 500 response.status

-- `baseDelayMs * 2 ** (attempt - 1) * (0.75 + random() * 0.5)`, exactly, and then cut.
pub backoff_ms : ℕ → ℕ → ℕ → ℕ
backoff_ms base_delay_ms exponent draw = base_delay_ms * 2 ^ exponent * (3 * 2 ^ 52 + draw) / 2 ^ 54

module _ {W : Type 0} (platform : Platform) (options : Options W) where
  abbrev pub Step : Type 0 → Type 0
  Step A = Act W Call Failure A

  pub random_delay : ℕ → Step ℕ
  random_delay exponent = do
    draw ← call options.random drawn
    pure (backoff_ms options.base_delay_ms exponent draw)

  pub retry_delay : ℕ → Option ℕ → Step ℕ
  unfolding random_delay
  retry_delay exponent (some retry_after) = pure retry_after
  retry_delay exponent none = random_delay exponent

  pub slept_or_throw : Bool → Step (Unit {0})
  slept_or_throw true = pure tt
  slept_or_throw false = throw abort_error

  pub pause : ℕ → Step (Unit {0})
  unfolding slept_or_throw
  pause delay = do
    done ←
        call (options.sleep (min options.maximum_retry_after_ms delay))
          (slept (min options.maximum_retry_after_ms delay))
    slept_or_throw done

  -- The request could not be sent; `again` is the next round.
  pub after_error : ℕ → Step Reply → Bool → Step Reply
  unfolding pause random_delay
  after_error exponent again true = throw network_error
  after_error exponent again false = do delay ← random_delay exponent; pause delay; again

  pub after_status : ℕ → Reply → Step Reply → Step Reply
  unfolding pause retry_delay
  after_status exponent response again = do
    now ← call options.now clock
    delay ← retry_delay exponent (parse_retry_after_ms platform (response.header "retry-after") now)
    call (options.cancel response) (λ _. cancelled)
    pause delay
    again

  pub judge : ℕ → Step Reply → Option Reply → Step Reply
  unfolding after_error after_status
  judge exponent again none = do
    aborted ← call options.aborted signal
    after_error exponent again aborted
  judge exponent again (some response) =
      if is_retriable response then after_status exponent response again else pure response

  -- The last round.
  pub last_round : Option Reply → Step Reply
  last_round none = throw network_error
  last_round (some response) = pure response

  pub fetch_loop : ℕ → ℕ → Step Reply
  unfolding judge last_round
  fetch_loop zero exponent = throw unexpected_end
  fetch_loop (suc zero) exponent = do reply ← call options.fetch fetched; last_round reply
  fetch_loop (suc (suc left)) exponent = do
    reply ← call options.fetch fetched
    judge exponent (fetch_loop (suc left) (suc exponent)) reply

  pub start_loop : Option ℕ → Step Reply
  unfolding fetch_loop
  start_loop none = throw attempts_refused
  start_loop (some attempts) = fetch_loop attempts 0

  pub retrying_get_fetch : Option Str → Option Str → Step Reply
  unfolding start_loop
  retrying_get_fetch method request_method =
      if is_idempotent (method_of method request_method)
      then start_loop (attempts_of options.attempts)
      else throw method_refused
