-- ===== src/DeleteAccount/Drain.antt =====
-- The command of the deletion worker, read and parsed: supabase/functions/delete-account/worker.ts.
use etkin_link.Base.{
  ℕ, ◌+◌, Bool, true, false, not, ◌||◌, List, [], ◌∷◌, ◌++◌, Option, none, some, ltb, ◌≡◌, ◌≤◌,
  arith, if◌then◌else◌, length, all,
}
use etkin_link.Int.{pos}
use etkin_link.Text.{Str, codes, str_eq, trim, all_digits, decimal, media_type}
use etkin_link.Json.{Json, bool, int, obj, Fields, keys, member}
use etkin_link.Http.{Chunk, bytes, broken, Body, Request, Platform}
use etkin_link.Effect.{Result, ok, err}

abbrev pub max_worker_body_bytes : ℕ
max_worker_body_bytes = 1024

pub data WorkerCode : Type 0 where
  application_json_required invalid_content_length request_body_too_large : WorkerCode
  invalid_json_body invalid_drain_command method_not_allowed worker_auth_invalid : WorkerCode
  worker_nonce_persist_failed worker_request_replayed continuation_claim_failed : WorkerCode
  continuation_release_failed continuation_release_conflict : WorkerCode

pub record WorkerRequestError : Type 0 where
  pub status : ℕ
  pub code : WorkerCode

abbrev refuse : {A : Type 0} → ℕ → WorkerCode → Result WorkerRequestError A
refuse status code = err (record { status = status; code = code })

check_worker_length : Option Str → Result WorkerRequestError (Unit {0})
check_worker_length none = ok tt
check_worker_length (some value) =
    if not (all_digits (trim value))
    then refuse 400 invalid_content_length
    else if ltb max_worker_body_bytes (decimal (trim value))
    then refuse 413 request_body_too_large
    else ok tt

check_worker_headers : Request → Result WorkerRequestError (Unit {0})
unfolding check_worker_length media_type all_digits trim decimal str_eq
check_worker_headers request =
    if not (str_eq (media_type (request.header "content-type")) (codes "application/json"))
    then refuse 415 application_json_required
    else check_worker_length (request.header "content-length")

module _ (platform : Platform) where
  -- The loop of the reader. A failed `cancel` changes nothing here.
  unfoldable pub read_worker_parts : List Chunk → ℕ → List ℕ → Str → Result WorkerRequestError Str
  read_worker_parts [] total pending parts = elim (platform.decode_end pending) [
    | none ↦ refuse 400 invalid_json_body
    | some text ↦ ok (parts ++ text)
  ]
  read_worker_parts (broken ∷ rest) total pending parts = refuse 400 invalid_json_body
  read_worker_parts (bytes value ∷ rest) total pending parts =
      elim (ltb max_worker_body_bytes (total + length value)) [
        | true ↦ refuse 413 request_body_too_large
        | false ↦ elim (platform.decode_stream pending value) [
          | none ↦ refuse 400 invalid_json_body
          | some (text, held) ↦ read_worker_parts rest (total + length value) held (parts ++ text)
        ]
      ]

  worker_stream : Option Body → Result WorkerRequestError Str
  worker_stream none = refuse 400 invalid_json_body
  worker_stream (some body) = read_worker_parts body.chunks 0 [] []

  pub read_bounded_body : Request → Result WorkerRequestError Str
  unfolding check_worker_headers worker_stream read_worker_parts
  read_bounded_body request = elim (check_worker_headers request) [
    | err e ↦ err e
    | ok _ ↦ worker_stream request.body
  ]

  is_true : Option Json → Bool
  is_true (some (bool b)) = b
  is_true _ = false

  -- A whole number from 1 to 10.
  drain_size : Option Json → Result WorkerRequestError ℕ
  drain_size (some (int (pos n))) =
      if ltb n 1 || ltb 10 n then refuse 400 invalid_drain_command else ok n
  drain_size _ = refuse 400 invalid_drain_command

  drain_fields : Fields → Result WorkerRequestError ℕ
  unfolding is_true drain_size member str_eq
  drain_fields fields =
      if not (all (λ k. str_eq k (codes "drain") || str_eq k (codes "batchSize")) (keys fields))
        || not (is_true (member (codes "drain") fields))
      then refuse 400 invalid_drain_command
      else drain_size (member (codes "batchSize") fields)

  drain_command : Option Json → Result WorkerRequestError ℕ
  unfolding drain_fields
  drain_command none = refuse 400 invalid_json_body
  drain_command (some (obj fields)) = drain_fields fields
  drain_command (some _) = refuse 400 invalid_drain_command

  pub parse_drain_command : Str → Result WorkerRequestError ℕ
  unfolding drain_command
  parse_drain_command raw_body = drain_command (platform.parse_json raw_body)

  drain_size-bounds : (value : Option Json) (n : ℕ) → drain_size value ≡ ok n → (1 ≤ n) × (n ≤ 10)
  unfolding drain_size
  drain_size-bounds value n h = (ground arith, ground arith)

  -- A batch has one to ten claims.
  pub parse_drain_command_bounds :
      (raw_body : Str) (n : ℕ) → parse_drain_command raw_body ≡ ok n → (1 ≤ n) × (n ≤ 10)
  unfolding parse_drain_command drain_command drain_fields
  parse_drain_command_bounds raw_body n h =
      let size = λ (fs : Fields). drain_size-bounds (member (codes "batchSize") fs) n in
      (ground (arith, size), ground (arith, size))
