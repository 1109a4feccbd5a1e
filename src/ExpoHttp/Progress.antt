-- ===== src/ExpoHttp/Progress.antt =====
-- What a call of the push service may do next, and the bound of its pauses.
use etkin_link.Base.{
  ℕ, suc, ◌≤◌, ◌<◌, ◌≡◌, Bool, true, false, Option, none, some, ◌∷◌, [], arith, ◌⊎◌,
}
use etkin_link.Int.{ℤ, pos, negsuc}
use etkin_link.Text.{Str}
use etkin_link.Json.{Json}
use etkin_link.Http.{Platform, Number, not_finite, whole, broken_number, Reply, is_ok}
use etkin_link.BoundedJson.{read_bounded_json_response}
use etkin_link.Effect.{ok, err}
use etkin_link.Effect.Protocol.{}
use etkin_link.ExpoHttp.{
  Failure, expo_http_error, unreadable, network_unreachable, is_transient_expo_status,
  bounded_delay, date_delay, seconds_delay, parse_retry_after_ms, Call, fetched, slept, clock,
  drawn, Options,
}

pub record Progress : Type 0 where
  pub fetches : ℕ
  pub last : Option (Option Reply)
  pub paused : Bool

abbrev pub fresh : Progress
fresh = record { fetches = 0; last = none; paused = true }

abbrev pub observe : Progress → Call → Progress
observe g (fetched reply) = record { fetches = suc g.fetches; last = some reply; paused = false }
observe g (slept _) = record g { paused = true }
observe g (clock _) = g
observe g (drawn _) = g

-- The last try failed in a way that may pass.
abbrev pub IsRetriable : Option (Option Reply) → Type 0
IsRetriable none = ⊥
IsRetriable (some none) = Unit
IsRetriable (some (some reply)) = is_transient_expo_status reply.status ≡ true

abbrev pub Allowed : ℕ → Progress → Call → Type 0
Allowed attempts g (fetched _) = (g.fetches < attempts) × (g.paused ≡ true)
Allowed attempts g (slept delay) = (delay ≤ 10_000) × IsRetriable g.last × (g.paused ≡ false)
Allowed attempts g (clock _) = Unit
Allowed attempts g (drawn _) = Unit

-- What is returned is the body of the last answer, which was a success.
abbrev pub Returned : {W : Type 0} → Platform → Options W → Json → Progress → Type 0
Returned platform options payload g =
    (reply : Reply) × (text : Str) × (g.last ≡ some (some reply))
    × (is_ok reply ≡ true)
    × (read_bounded_json_response platform reply options.max_response_bytes ≡ ok (text, payload))

-- A failure that may pass is reported only when no try is left; a status is that of the last answer.
abbrev pub Reported : {W : Type 0} → Platform → Options W → ℕ → Failure → Progress → Type 0
Reported platform options attempts (unreadable error) g =
    (reply : Reply) × (g.last ≡ some (some reply))
    × (is_transient_expo_status reply.status ≡ false)
    × (read_bounded_json_response platform reply options.max_response_bytes ≡ err error)
Reported platform options attempts (expo_http_error complaint none) g =
    (complaint ≡ network_unreachable) × (g.last ≡ some none) × (g.fetches ≡ attempts)
Reported platform options attempts (expo_http_error complaint (some status)) g =
    (reply : Reply) × (g.last ≡ some (some reply))
    × (status ≡ reply.status)
    × ((is_transient_expo_status reply.status ≡ false) ⊎ (g.fetches ≡ attempts))

date_delay-bounded :
    (platform : Platform) (header : Str) (now_ms : ℤ) (d : ℕ)
    → date_delay platform header now_ms ≡ some d
    → d ≤ 10_000
unfolding date_delay bounded_delay
date_delay-bounded platform header now_ms d h = ground arith

seconds_delay-bounded :
    (platform : Platform) (n : Number) (header : Str) (now_ms : ℤ) (d : ℕ)
    → seconds_delay platform n header now_ms ≡ some d
    → d ≤ 10_000
unfolding seconds_delay bounded_delay
seconds_delay-bounded platform not_finite header now_ms d h =
    date_delay-bounded platform header now_ms d h
seconds_delay-bounded platform (whole (pos n)) header now_ms d h = ground arith
seconds_delay-bounded platform (whole (negsuc n)) header now_ms d h =
    date_delay-bounded platform header now_ms d h
seconds_delay-bounded platform (broken_number (pos n) m) header now_ms d h = ground arith
seconds_delay-bounded platform (broken_number (negsuc n) m) header now_ms d h =
    date_delay-bounded platform header now_ms d h

-- The service is never waited for longer than ten seconds, whatever its header says.
pub parse_retry_after_ms_bounded :
    (platform : Platform) (header : Option Str) (now_ms : ℤ) (d : ℕ)
    → parse_retry_after_ms platform header now_ms ≡ some d
    → d ≤ 10_000
unfolding parse_retry_after_ms
parse_retry_after_ms_bounded platform none now_ms d h = ground arith
parse_retry_after_ms_bounded platform (some []) now_ms d h = ground arith
parse_retry_after_ms_bounded platform (some (c ∷ s)) now_ms d h =
    seconds_delay-bounded platform _ (c ∷ s) now_ms d h
