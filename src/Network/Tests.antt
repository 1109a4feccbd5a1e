-- ===== src/Network/Tests.antt =====
-- Examples of requests that are repeated, and of bodies of bounded size.
use etkin_link.Base.{
  ℕ, suc, ◌≤◌, ◌≡◌, refl, true, false, [], ◌∷◌, none, some, if◌then◌else◌, ◌==◌, length, leb, arith,
}
use etkin_link.Int.{pos}
use etkin_link.Text.{Str, codes}
use etkin_link.Json.{null}
use etkin_link.Http.{Platform, Reply, whole}
use etkin_link.Effect.{ok, err}
use etkin_link.Effect.Protocol.{Follows, Ends, after}
use etkin_link.Network.Recovery.{IsGood, Recovers, retrying_get_fetch-Recovers}
use etkin_link.Base.{◌-◌}
use etkin_link.Network.{
  Options, is_retriable, is_idempotent, method_of, attempts_of, retrying_get_fetch,
}
use etkin_link.Network.Retry.{
  Allowed, observe, fresh, most, Returned, Reported, retrying_get_fetch-Follows,
}
use etkin_link.Base.{List, inl, inr}
use etkin_link.Network.Body.Encoding.{utf16, utf8, utf8_byte_length-utf16}
use etkin_link.Network.Body.{Decoder, utf8_byte_length, read_arrivals, too_large}
use etkin_link.Network.Body.Bounds.{arrived, decoded, read_arrivals-arrived}
use etkin_link.BoundedJson.Bounds.{joined}

abbrev platform : Platform
platform = record {
  decode_stream = λ held input. some (input, []);
  decode_end = λ held. some [];
  parse_json = λ text. some null;
  date_parse = λ text. none;
  number = λ text. whole (pos 60);
}

abbrev reply : ℕ → Reply
reply status = record { status = status; header = λ name. none; body = none }

-- The world counts the tries: the network fails, the server is overloaded, and then it answers.
abbrev options : Options ℕ
options = record {
  fetch = λ n.
      ((if n == 0 then none else if n == 1 then some (reply 503) else some (reply 200)), suc n);
  aborted = λ n. (false, n);
  sleep = λ d n. (true, n);
  now = λ n. (pos 0, n);
  random = λ n. (7, n);
  cancel = λ r n. (tt, n);
  attempts = none;
  base_delay_ms = 250;
  maximum_retry_after_ms = 30_000;
}

retrying_get_fetch-Follows_example :
    Follows
      (Allowed (method_of (some (codes "get")) none) (most (attempts_of options.attempts)) 30_000)
      observe
      fresh
      (retrying_get_fetch platform options (some (codes "get")) none 0).1
    × Ends
        (Returned (most (attempts_of options.attempts)))
        (Reported (most (attempts_of options.attempts)))
        (retrying_get_fetch platform options (some (codes "get")) none 0).0
        (after observe fresh (retrying_get_fetch platform options (some (codes "get")) none 0).1)
    × (most (attempts_of options.attempts) ≤ 5)
retrying_get_fetch-Follows_example =
    retrying_get_fetch-Follows platform options (some (codes "get")) none 0

-- A letter, one of two bytes, and a surrogate pair.
abbrev sample : Str
sample = 97 ∷ 233 ∷ 0xd83d ∷ 0xde00 ∷ []

abbrev characters : List ℕ
characters = 97 ∷ 233 ∷ 0x20ac ∷ 0x1f600 ∷ []

utf8_byte_length-utf16_example : utf8_byte_length (utf16 characters) ≡ length (utf8 characters)
utf8_byte_length-utf16_example = utf8_byte_length-utf16 characters (
  inl (omega arith),
  (inl (omega arith), (inl (omega arith), (inr (omega arith, omega arith), tt))),
)

utf8_byte_length-sample : utf8_byte_length sample ≡ 7
unfolding utf8_byte_length
utf8_byte_length-sample = refl

abbrev decoder : Decoder
decoder = record { stream = λ held input. (input, []); flush = λ held. [] }

read_arrivals-arrived_example :
    read_arrivals decoder 3 (arrived (codes "ab" ∷ codes "c" ∷ [])) 0 [] [] ≡ (
      if leb (length (joined (codes "ab" ∷ codes "c" ∷ []))) 3
      then ok (decoded decoder (codes "ab" ∷ codes "c" ∷ []) [])
      else err too_large)
read_arrivals-arrived_example = read_arrivals-arrived decoder 3 (codes "ab" ∷ codes "c" ∷ [])

-- How many tries still fail.
abbrev failing : ℕ → ℕ
failing n = 2 - n

answers_late : (n : ℕ) → 2 - n ≡ 0 → IsGood (options.fetch n).0
unfolding is_retriable
answers_late n h =
    let later : (n == 0) ≡ false = ground arith in
    let last : (n == 1) ≡ false = ground arith in rw (later, last) refl

options-Recovers : Recovers options failing
options-Recovers = record {
  fails = λ w n e. omega arith;
  answers = answers_late;
  not_aborted = λ w. refl;
  aborted_keeps = λ w. refl;
  sleeps = λ d w. refl;
  sleep_keeps = λ d w. refl;
  now_keeps = λ w. refl;
  random_keeps = λ w. refl;
  cancel_keeps = λ r w. refl;
}

get_is_idempotent : is_idempotent (method_of (some (codes "get")) none) ≡ true
unfolding is_idempotent method_of
get_is_idempotent = refl

three_tries : attempts_of options.attempts ≡ some 3
unfolding attempts_of
three_tries = refl

retrying_get_fetch-Recovers_example :
    (r : Reply) × ((retrying_get_fetch platform options (some (codes "get")) none 0).0 ≡ ok r)
    × (is_retriable r ≡ false)
retrying_get_fetch-Recovers_example =
    retrying_get_fetch-Recovers platform options-Recovers (some (codes "get")) none 3 0
      get_is_idempotent three_tries (omega arith)
