-- ===== src/PushReceipts/Handler.antt =====
-- The worker that asks for receipts and stores them: supabase/functions/push-receipts/index.ts.
pub mod Safety
pub mod Protocol
mod Tests
use etkin_link.Base.{
  ℕ, zero, suc, ◌+◌, ◌*◌, min, Bool, true, false, not, ◌&&◌, ◌||◌, List, [], ◌∷◌, Option, none,
  some, ltb, leb, if◌then◌else◌, length, take, map,
}
use etkin_link.Int.{pos}
use etkin_link.Text.{Str, codes, str_eq}
use etkin_link.Json.{Json, obj, end}
use etkin_link.Http.{Request, Platform, Reply}
use etkin_link.Effect.{
  Result, ok, err, Act, pure, throw, call, throw_none, attempt, relabel, ◌>>=◌, ◌>>◌, throw_if,
}
use etkin_link.BoundedJson.{
  Reason, ReadError, bounded, thrown, BoundedJsonError, read_bounded_json_request,
}
use etkin_link.ExpoHttp
use etkin_link.ExpoHttp.{
  Failure, expo_http_error, unreadable, is_transient_expo_status, Options,
  fetch_expo_json_with_retry,
}
use etkin_link.WorkerAuth.{Crypto, WorkerAuthorization, authorize_worker_request}
use etkin_link.PushReceipts.Receipt.{
  Receipt, ReceiptState, delivered, invalid_token, retryable, permanent_failure, classify_receipt,
  Receipts, normalize_receipt_payload, receipt_of,
}

abbrev pub max_receipts_per_request : ℕ
max_receipts_per_request = 300

abbrev pub max_receipt_attempts : ℕ
max_receipt_attempts = 5

abbrev pub max_request_body_bytes : ℕ
max_request_body_bytes = 4 * 1024

abbrev pub max_expo_response_bytes : ℕ
max_expo_response_bytes = 512 * 1024

pub record PendingDelivery : Type 0 where
  pub id : Str
  pub expo_ticket_id : Str
  pub push_token_id : Str
  pub receipt_attempt_count : Option ℕ
  pub receipt_lease_id : Str

-- The code that is stored with a result.
pub data ErrorCode : Type 0 where
  reported : Str → ErrorCode
  receipt_not_ready expo_protocol_error expo_transient_failure : ErrorCode
  expo_http : (status : ℕ) → ErrorCode

-- The calls of the database and of the push service; a reply `none` is an error of the database.
pub data Call : Type 0 where
  clock : ℕ → Call
  consume_nonce : WorkerAuthorization → Option (Option Bool) → Call
  claim_receipts : (batch_size : ℕ) → Option (List PendingDelivery) → Call
  http : ExpoHttp.Call → Call
  persist : PendingDelivery → ReceiptState → Option ErrorCode → Option Str → Bool → Call

pub record Dependencies (W : Type 0) : Type 0 where
  pub supabase_url : Option Str
  pub service_role_key : Option Str
  pub worker_secret : Option Str
  pub now : W → ℕ × W
  pub consume : WorkerAuthorization → W → Option (Option Bool) × W
  pub claim : ℕ → W → Option (List PendingDelivery) × W
  pub fetch : List Str → W → Option Reply × W
  pub sleep : ℕ → W → Unit {0} × W
  pub jitter : W → ℕ × W
  -- the attempt count and the lease of the delivery are checked by the database
  pub persist_result :
      PendingDelivery → ReceiptState → Option ErrorCode → Option Str → W → Option Bool × W

pub data Complaint : Type 0 where
  bad_body : Reason → Complaint
  post_only misconfigured unreadable_body bad_command unauthorized nonce_unverified replayed :
      Complaint
  deliveries_unreadable failure_not_stored service_unreachable result_not_stored : Complaint

pub record Tally : Type 0 where
  pub checked : ℕ
  pub delivered_count : ℕ
  pub retryable_count : ℕ
  pub permanent_count : ℕ
  pub invalid_count : ℕ

abbrev pub empty_tally : Tally
empty_tally = record {
  checked = 0;
  delivered_count = 0;
  retryable_count = 0;
  permanent_count = 0;
  invalid_count = 0;
}

pub data Answer : Type 0 where
  error : Complaint → Answer
  nothing_to_check : Answer
  receipts_checked : Tally → Answer

pub record Response : Type 0 where
  pub status : ℕ
  pub body : Answer

abbrev pub refuse : ℕ → Complaint → Response
refuse status complaint = record { status = status; body = error complaint }

-- `!value`
abbrev pub is_missing : Option Str → Bool
is_missing none = true
is_missing (some []) = true
is_missing (some (c ∷ s)) = false

abbrev pub secret_or_empty : Option Str → Str
secret_or_empty none = []
secret_or_empty (some secret) = secret

abbrev pub count_or_zero : Option ℕ → ℕ
count_or_zero none = 0
count_or_zero (some n) = n

-- The command must be exactly {}.
pub is_empty_object : Json → Bool
is_empty_object (obj end) = true
is_empty_object _ = false

pub next_attempt_count : PendingDelivery → ℕ
next_attempt_count delivery =
    min (count_or_zero delivery.receipt_attempt_count + 1) max_receipt_attempts

-- A result that may be retried is final at the last attempt.
pub final_state : ReceiptState → ℕ → ReceiptState
final_state retryable attempts =
    if leb max_receipt_attempts attempts then permanent_failure else retryable
final_state state attempts = state

pub count_result : ReceiptState → Tally → Tally
count_result delivered tally = record tally {
  checked = suc tally.checked;
  delivered_count = suc tally.delivered_count;
}
count_result retryable tally = record tally {
  checked = suc tally.checked;
  retryable_count = suc tally.retryable_count;
}
count_result permanent_failure tally = record tally {
  checked = suc tally.checked;
  permanent_count = suc tally.permanent_count;
}
count_result invalid_token tally = record tally {
  checked = suc tally.checked;
  invalid_count = suc tally.invalid_count;
}

-- A delivery without a receipt is tried again.
pub state_of : Option Receipt → ReceiptState
state_of none = retryable
state_of (some receipt) = classify_receipt receipt

pub error_code_of : Option Receipt → Option ErrorCode
error_code_of none = some receipt_not_ready
error_code_of (some receipt) = elim receipt.error [ none ↦ none | some code ↦ some (reported code) ]

pub message_of : Option Receipt → Option Str
message_of none = none
message_of (some receipt) = elim receipt.message [ none ↦ none | some m ↦ some (take 500 m) ]

-- Why no receipts came: the call failed, or its answer is malformed.
pub data Problem : Type 0 where
  failed_call : Failure → Problem
  malformed : Problem

-- The state and the code that a failed call leaves.
pub judge_problem : Problem → ReceiptState × ErrorCode
judge_problem malformed = (retryable, expo_protocol_error)
judge_problem (failed_call (unreadable e)) = (retryable, expo_protocol_error)
judge_problem (failed_call (expo_http_error complaint none)) = (retryable, expo_transient_failure)
judge_problem (failed_call (expo_http_error complaint (some status))) =
    if is_transient_expo_status status
    then (retryable, expo_transient_failure)
    else (permanent_failure, expo_http status)

module _ {W : Type 0} (platform : Platform) (crypto : Crypto) (deps : Dependencies W)
    (request : Request) where
  abbrev pub Step : Type 0 → Type 0
  Step A = Act W Call Response A

  -- `error === null && data === true`
  abbrev stored : Option Bool → Bool
  stored (some data_value) = data_value
  stored none = false

  pub persist_receipt_result :
      PendingDelivery → ReceiptState → Option ErrorCode → Option Str → Step Bool
  persist_receipt_result delivery state code message =
      call
        (λ w.
          let (reply, w') = deps.persist_result delivery state code message w in (stored reply, w'))
        (persist delivery state code message)

  -- `persistReceiptFetchFailure`, which stops at the first result that is not stored
  pub persist_receipt_fetch_failure :
      List PendingDelivery → ReceiptState → ErrorCode → Step (Unit {0})
  persist_receipt_fetch_failure [] state code = pure tt
  persist_receipt_fetch_failure (delivery ∷ rest) state code = do
    persisted ← persist_receipt_result delivery state (some code) none
    throw_if (not persisted) (refuse 500 failure_not_stored)
    persist_receipt_fetch_failure rest state code

  pub store_receipts : Receipts → List PendingDelivery → Tally → Step Response
  store_receipts receipts [] tally = pure (record { status = 200; body = receipts_checked tally })
  store_receipts receipts (delivery ∷ rest) tally = do
    let receipt = receipt_of delivery.expo_ticket_id receipts
    persisted ←
        persist_receipt_result delivery (state_of receipt) (error_code_of receipt)
          (message_of receipt)
    throw_if (not persisted) (refuse 500 result_not_stored)
    store_receipts receipts rest
        (count_result (final_state (state_of receipt) (next_attempt_count delivery)) tally)

  pub options_for : List Str → Options W
  options_for ids = record {
    fetch = deps.fetch ids;
    sleep = deps.sleep;
    now = λ w. let (t, w') = deps.now w in (pos t, w');
    jitter = deps.jitter;
    max_response_bytes = max_expo_response_bytes;
    attempts = none;
  }

  pub read_receipts : List Str → Result Failure Json → Result Problem Receipts
  read_receipts ids (err failure) = err (failed_call failure)
  read_receipts ids (ok payload) = elim (normalize_receipt_payload payload ids) [
    | none ↦ err malformed
    | some receipts ↦ ok receipts
  ]

  pub conclude : List PendingDelivery → Result Problem Receipts → Step Response
  conclude deliveries (ok receipts) = store_receipts receipts deliveries empty_tally
  conclude deliveries (err problem) = do
    persist_receipt_fetch_failure deliveries (judge_problem problem).0 (judge_problem problem).1
    throw (refuse 502 service_unreachable)

  pub check_deliveries : List PendingDelivery → Step Response
  check_deliveries [] = pure (record { status = 200; body = nothing_to_check })
  check_deliveries (first ∷ more) = do
    let ids = map (λ (d : PendingDelivery). d.expo_ticket_id) (first ∷ more)
    payload ← attempt (relabel http (fetch_expo_json_with_retry platform (options_for ids)))
    conclude (first ∷ more) (read_receipts ids payload)

  pub check_nonce : Option Bool → Step (Unit {0})
  check_nonce (some true) = pure tt
  check_nonce _ = throw (refuse 401 replayed)

  pub claim_and_check : Step Response
  claim_and_check = do
    claimed ← call (deps.claim max_receipts_per_request) (claim_receipts max_receipts_per_request)
    deliveries ← throw_none (refuse 500 deliveries_unreadable) claimed
    check_deliveries deliveries

  pub run_worker : Str → Step Response
  run_worker raw_body = do
    now ← call deps.now clock
    authorization ← throw_none (refuse 401 unauthorized) (
        authorize_worker_request crypto request (secret_or_empty deps.worker_secret)
          (codes "push-receipts") raw_body now)
    reply ← call (deps.consume authorization) (consume_nonce authorization)
    nonce_accepted ← throw_none (refuse 500 nonce_unverified) reply
    check_nonce nonce_accepted
    claim_and_check

  pub body_or_answer : Result ReadError (Str × Json) → Step (Str × Json)
  body_or_answer (ok parsed) = pure parsed
  body_or_answer (err (bounded e)) = throw (refuse e.status (bad_body e.reason))
  body_or_answer (err thrown) = throw (refuse 400 unreadable_body)

  pub handle_push_receipts : Step Response
  handle_push_receipts = do
    throw_if (not (str_eq request.method (codes "POST"))) (refuse 405 post_only)
    throw_if
        (is_missing deps.supabase_url
          || is_missing deps.service_role_key
          || ltb (length (secret_or_empty deps.worker_secret)) 32)
        (refuse 500 misconfigured)
    parsed ← body_or_answer (read_bounded_json_request platform request max_request_body_bytes)
    throw_if (not (is_empty_object parsed.1)) (refuse 400 bad_command)
    run_worker parsed.0
