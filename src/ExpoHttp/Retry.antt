-- ===== src/ExpoHttp/Retry.antt =====
-- When a call of the push service is repeated: supabase/functions/_shared/expoHttp.ts.
use etkin_link.Base.{
  ℕ, zero, suc, ◌+◌, ◌≤◌, ◌≡◌, refl, Bool, true, false, Option, none, some, List, arith, ◌⊎◌, inl,
  inr,
}
use etkin_link.Int.{ℤ, pos, negsuc}
use etkin_link.Text.{Str}
use etkin_link.Json.{Json}
use etkin_link.Http.{Platform, Reply, is_ok}
use etkin_link.BoundedJson.{ReadError, read_bounded_json_response}
use etkin_link.Effect.{Result, ok, err, Act, call, ◌>>=◌}
use etkin_link.Effect.Protocol.{
  Follows, after, Ends, Triple, Triple-pure, Triple-throw, Triple-call, Triple-if, Triple-bind,
}
use etkin_link.ExpoHttp.{
  Failure, expo_http_error, Complaint, answer_not_json, request_failed, is_transient_expo_status,
  Call, fetched, slept, clock, drawn, Options, attempts_within, given_attempts, retry_after_header,
  own_delay, retry_delay_ms, pause, give_up, judge_payload, judge_error, judge_body, judge_reply,
  fetch_loop, fetch_expo_json_with_retry,
}
use etkin_link.ExpoHttp.Progress.{
  Progress, fresh, observe, IsRetriable, Allowed, Returned, Reported, parse_retry_after_ms_bounded,
}

module _ {W : Type 0} (platform : Platform) (options : Options W) (attempts : ℕ) where
  abbrev Rule :
      {A : Type 0} → (Progress → Type 0) → (A → Progress → Type 0) → Act W Call Failure A → Type 0
  Rule Pre Post m =
      Triple (Allowed attempts) observe Pre Post (Reported platform options attempts) m

  abbrev Ready : ℕ → Progress → Type 0
  Ready left g = (g.paused ≡ true) × (g.fetches + left ≡ attempts)

  abbrev Answered : ℕ → Option Reply → Progress → Type 0
  Answered left reply g = (g.last ≡ some reply) × (g.paused ≡ false) × (g.fetches + left ≡ attempts)

  own_delay-Rule :
      (attempt : ℕ) (retry_after : Option ℕ) (Pre : Progress → Type 0)
      → ((d : ℕ) → retry_after ≡ some d → d ≤ 10_000)
      → Rule Pre (λ d g. (d ≤ 10_000) × Pre g) (own_delay platform options attempt retry_after)
  unfolding own_delay
  own_delay-Rule attempt (some d) Pre h = Triple-pure d (λ g p. (h d refl, p))
  own_delay-Rule attempt none Pre h =
      Triple-bind (λ _ g. Pre g) _ _
        (Triple-call (λ _. Unit) options.jitter drawn (λ w. tt) (λ a g r p. (tt, p)))
        (λ extra. Triple-pure _ (λ g p. (omega arith, p)))

  pause-Rule :
      (attempt left : ℕ) (reply : Option Reply)
      → IsRetriable (some reply)
      → Rule (Answered left reply) (λ _ g. Ready left g) (pause platform options attempt reply)
  unfolding pause retry_delay_ms
  pause-Rule attempt left reply bad =
      Triple-bind (λ d g. (d ≤ 10_000) × Answered left reply g) _ _
        (Triple-bind (λ _ g. Answered left reply g) _ _
          (Triple-call (λ _. Unit) options.now clock (λ w. tt) (λ a g r p. (tt, p)))
          (λ now.
            own_delay-Rule attempt _ (Answered left reply)
              (parse_retry_after_ms_bounded platform (retry_after_header reply) now)))
        (λ d.
          Triple-call (λ _. Unit) (options.sleep d) (λ _. slept d) (λ w. tt)
            (λ a g r p. ((p.0, rw p.1.0 bad, p.1.1), (refl, p.1.2))))

  -- A next round after a pause.
  again-Rule :
      (attempt left : ℕ) (reply : Option Reply) (again : Act W Call Failure Json)
      → IsRetriable (some reply)
      → Rule (Ready left) (Returned platform options) again
      → Rule
          (Answered left reply)
          (Returned platform options)
          (pause platform options attempt reply >>= λ _. again)
  again-Rule attempt left reply again bad next =
      Triple-bind (λ _ g. Ready left g) _ _ (pause-Rule attempt left reply bad) (λ _. next)

  none_left : (g : Progress) → g.fetches + 0 ≡ attempts → g.fetches ≡ attempts
  none_left g h = omega arith

  status_of_last :
      (complaint : Complaint) (reply : Reply) (g : Progress)
      → g.last ≡ some (some reply)
      → (is_transient_expo_status reply.status ≡ false) ⊎ (g.fetches ≡ attempts)
      → Reported platform options attempts (expo_http_error complaint (some reply.status)) g
  status_of_last complaint reply g last why = (reply, last, refl, why)

  payload-last :
      (attempt : ℕ) (reply : Reply) (text : Str) (payload : Json)
      → read_bounded_json_response platform reply options.max_response_bytes ≡ ok (text, payload)
      → Rule
          (Answered 0 (some reply))
          (Returned platform options)
          (judge_payload platform options none attempt reply payload)
  unfolding judge_payload
  payload-last attempt reply text payload read =
      Triple-if (is_ok reply) _ _
        (λ good. Triple-pure payload (λ g p. (reply, text, p.0, good, read)))
        (λ bad.
          Triple-throw _ (λ g p. status_of_last request_failed reply g p.0 (inr (none_left g p.2))))

  payload-again :
      (attempt left : ℕ) (reply : Reply) (text : Str) (payload : Json)
      (again : Act W Call Failure Json)
      → read_bounded_json_response platform reply options.max_response_bytes ≡ ok (text, payload)
      → Rule (Ready left) (Returned platform options) again
      → Rule
          (Answered left (some reply))
          (Returned platform options)
          (judge_payload platform options (some again) attempt reply payload)
  unfolding judge_payload
  payload-again attempt left reply text payload again read next =
      Triple-if (is_ok reply) _ _
        (λ good. Triple-pure payload (λ g p. (reply, text, p.0, good, read)))
        (λ bad.
          Triple-if (is_transient_expo_status reply.status) _ _
            (λ passing. again-Rule attempt left (some reply) again passing next)
            (λ lasting.
              Triple-throw _ (λ g p. status_of_last request_failed reply g p.0 (inl lasting))))

  error-last :
      (attempt : ℕ) (reply : Reply) (error : ReadError)
      → read_bounded_json_response platform reply options.max_response_bytes ≡ err error
      → Rule
          (Answered 0 (some reply))
          (Returned platform options)
          (judge_error platform options none attempt reply error)
  unfolding judge_error
  error-last attempt reply error read =
      Triple-if (is_transient_expo_status reply.status) _ _
        (λ passing.
          Triple-throw _
            (λ g p. status_of_last answer_not_json reply g p.0 (inr (none_left g p.2))))
        (λ lasting. Triple-throw _ (λ g p. (reply, p.0, lasting, read)))

  error-again :
      (attempt left : ℕ) (reply : Reply) (error : ReadError) (again : Act W Call Failure Json)
      → read_bounded_json_response platform reply options.max_response_bytes ≡ err error
      → Rule (Ready left) (Returned platform options) again
      → Rule
          (Answered left (some reply))
          (Returned platform options)
          (judge_error platform options (some again) attempt reply error)
  unfolding judge_error
  error-again attempt left reply error again read next =
      Triple-if (is_transient_expo_status reply.status) _ _
        (λ passing. again-Rule attempt left (some reply) again passing next)
        (λ lasting. Triple-throw _ (λ g p. (reply, p.0, lasting, read)))

  body-last :
      (attempt : ℕ) (reply : Reply) (body : Result ReadError (Str × Json))
      → read_bounded_json_response platform reply options.max_response_bytes ≡ body
      → Rule
          (Answered 0 (some reply))
          (Returned platform options)
          (judge_body platform options none attempt reply body)
  unfolding judge_body
  body-last attempt reply (ok (text, payload)) read = payload-last attempt reply text payload read
  body-last attempt reply (err error) read = error-last attempt reply error read

  body-again :
      (attempt left : ℕ) (reply : Reply) (body : Result ReadError (Str × Json))
      (again : Act W Call Failure Json)
      → read_bounded_json_response platform reply options.max_response_bytes ≡ body
      → Rule (Ready left) (Returned platform options) again
      → Rule
          (Answered left (some reply))
          (Returned platform options)
          (judge_body platform options (some again) attempt reply body)
  unfolding judge_body
  body-again attempt left reply (ok (text, payload)) again read next =
      payload-again attempt left reply text payload again read next
  body-again attempt left reply (err error) again read next =
      error-again attempt left reply error again read next

  reply-last :
      (attempt : ℕ) (reply : Option Reply)
      → Rule
          (Answered 0 reply)
          (Returned platform options)
          (judge_reply platform options none attempt reply)
  unfolding judge_reply give_up
  reply-last attempt none = Triple-throw _ (λ g p. (refl, p.0, none_left g p.2))
  reply-last attempt (some reply) = body-last attempt reply _ refl

  reply-again :
      (attempt left : ℕ) (reply : Option Reply) (again : Act W Call Failure Json)
      → Rule (Ready left) (Returned platform options) again
      → Rule
          (Answered left reply)
          (Returned platform options)
          (judge_reply platform options (some again) attempt reply)
  unfolding judge_reply
  reply-again attempt left none again next = again-Rule attempt left none again tt next
  reply-again attempt left (some reply) again next = body-again attempt left reply _ again refl next

  fetch-Rule : (left : ℕ) → Rule (Ready (suc left)) (Answered left) (call options.fetch fetched)
  fetch-Rule left =
      Triple-call (λ _. Unit) options.fetch fetched (λ w. tt)
        (λ reply g r p. ((omega (arith, p.1), p.0), (refl, refl, omega (arith, p.1))))

  fetch_loop-Rule :
      (left attempt : ℕ) (saw_network_error : Bool)
      → Rule
          (Ready (suc left))
          (Returned platform options)
          (fetch_loop platform options (suc left) attempt saw_network_error)
  unfolding fetch_loop
  fetch_loop-Rule zero attempt saw =
      Triple-bind (Answered 0) _ _ (fetch-Rule 0) (λ reply. reply-last attempt reply)
  fetch_loop-Rule (suc left) attempt saw =
      Triple-bind (Answered (suc left)) _ _ (fetch-Rule (suc left))
        (λ reply. reply-again attempt (suc left) reply _ (fetch_loop-Rule left (suc attempt) _))

all_tries :
    {W : Type 0} (platform : Platform) (options : Options W) (n : ℕ)
    → 1 ≤ n
    → Triple
        (Allowed n)
        observe
        (λ g. (g.paused ≡ true) × (g.fetches + n ≡ n))
        (Returned platform options)
        (Reported platform options n)
        (fetch_loop platform options n 0 false)
all_tries platform options zero h = absurd (omega arith)
all_tries platform options (suc n) h = fetch_loop-Rule platform options (suc n) n 0 false

abbrev pub last_progress : List Call → Progress
last_progress calls = after observe fresh calls

one_to_three : (n : Option ℤ) → (1 ≤ given_attempts n) × (given_attempts n ≤ 3)
unfolding attempts_within
one_to_three none = (omega arith, omega arith)
one_to_three (some (pos n)) = (omega arith, omega arith)
one_to_three (some (negsuc n)) = (omega arith, omega arith)

-- A call is sent at most `attempts` times, which is one to three; every repetition follows a failure
-- of the network or a status 408, 429 or 5xx, and a pause of at most ten seconds. What is returned is
-- the body of the last answer, a success; a failure that may pass is reported only when no try is left.
pub fetch_expo_json_with_retry-Follows :
    {W : Type 0} (platform : Platform) (options : Options W) (w : W)
    → (given_attempts options.attempts ≤ 3)
      × Follows
          (Allowed (given_attempts options.attempts))
          observe
          fresh
          (fetch_expo_json_with_retry platform options w).1
      × Ends
          (Returned platform options)
          (Reported platform options (given_attempts options.attempts))
          (fetch_expo_json_with_retry platform options w).0
          (last_progress (fetch_expo_json_with_retry platform options w).1)
unfolding fetch_expo_json_with_retry
fetch_expo_json_with_retry-Follows platform options w =
    let (some_try, few) = one_to_three options.attempts in
    let (sent, last) =
      (all_tries platform options (given_attempts options.attempts) some_try).at w fresh
        (refl, omega arith) in
    (few, sent, last)
