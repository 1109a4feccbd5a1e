-- ===== src/BoundedJson.antt =====
-- Bodies of bounded size, read as JSON: supabase/functions/_shared/boundedJson.ts.
pub mod Bounds
pub mod Statuses
mod Tests
use etkin_link.Base.{
  ℕ, ◌+◌, Bool, true, false, not, ◌&&◌, ◌||◌, List, [], ◌∷◌, ◌++◌, Option, none, some, ltb, leb,
  if◌then◌else◌, length,
}
use etkin_link.Int.{ℤ, pos, ltb_ℤ}
use etkin_link.Text.{Str, codes, str_eq, ends_with, media_type}
use etkin_link.Json.{Json}
use etkin_link.Http.{
  Chunk, bytes, broken, Body, Request, Platform, decode_utf8, Number, not_finite, whole,
  broken_number, Reply,
}
use etkin_link.Effect.{Result, ok, err}

-- What the message of a `BoundedJsonError` says.
pub data Reason : Type 0 where
  content_type_required content_length_invalid body_too_large not_utf_8 not_json : Reason

pub record BoundedJsonError : Type 0 where
  pub status : ℕ
  pub reason : Reason

-- `thrown` is an error of the stream itself, which is passed on.
pub data ReadError : Type 0 where
  bounded : BoundedJsonError → ReadError
  thrown : ReadError

abbrev pub refuse : {A : Type 0} → ℕ → Reason → Result ReadError A
refuse status reason = err (bounded (record { status = status; reason = reason }))

pub is_json_content_type : Option Str → Bool
unfolding media_type str_eq ends_with
is_json_content_type none = false
is_json_content_type (some []) = false
is_json_content_type (some (c ∷ s)) =
    str_eq (media_type (some (c ∷ s))) (codes "application/json")
    || ends_with (media_type (some (c ∷ s))) (codes "+json")

abbrev max_safe_integer : ℕ
max_safe_integer = 9_007_199_254_740_991

-- The tests of a declared length.
check_declared : Number → ℕ → ℕ → Result ReadError (Unit {0})
check_declared (whole n) max_bytes too_large_status =
    if ltb_ℤ (pos max_safe_integer) n || ltb_ℤ n (pos 0)
    then refuse too_large_status content_length_invalid
    else if ltb_ℤ (pos max_bytes) n
    then refuse too_large_status body_too_large
    else ok tt
check_declared _ max_bytes too_large_status = refuse too_large_status content_length_invalid

-- The loop of the reader: the bytes so far and their number.
pub read_chunks : ℕ → ℕ → List Chunk → ℕ → List ℕ → Result ReadError (List ℕ)
read_chunks max_bytes too_large_status [] total_bytes received = ok received
read_chunks max_bytes too_large_status (broken ∷ rest) total_bytes received = err thrown
read_chunks max_bytes too_large_status (bytes value ∷ rest) total_bytes received =
    let more =
      read_chunks max_bytes too_large_status rest (total_bytes + length value)
        (received ++ value) in
    if ltb max_bytes (total_bytes + length value)
    then refuse too_large_status body_too_large
    else more

module _ (platform : Platform) where
  decode_bytes : ℕ → Result ReadError (List ℕ) → Result ReadError Str
  decode_bytes too_large_status (err e) = err e
  decode_bytes too_large_status (ok received) = elim (decode_utf8 platform received) [
    | none ↦
        refuse (if leb 413 too_large_status && leb too_large_status 413 then 400 else 502) not_utf_8
    | some text ↦ ok text
  ]

  check_header : Option Str → ℕ → ℕ → Result ReadError (Unit {0})
  check_header none max_bytes too_large_status = ok tt
  check_header (some value) max_bytes too_large_status =
      check_declared (platform.number value) max_bytes too_large_status

  read_stream : Option Body → ℕ → ℕ → Result ReadError Str
  read_stream none max_bytes too_large_status = ok []
  read_stream (some body) max_bytes too_large_status =
      decode_bytes too_large_status (read_chunks max_bytes too_large_status body.chunks 0 [])

  pub read_bounded_text : Option Body → Option Str → ℕ → ℕ → Result ReadError Str
  read_bounded_text body content_length max_bytes too_large_status =
      elim (check_header content_length max_bytes too_large_status) [
        | err e ↦ err e
        | ok _ ↦ read_stream body max_bytes too_large_status
      ]

  -- The text with its value, or the error of a bad text.
  pub parse_json : ℕ → Result ReadError Str → Result ReadError (Str × Json)
  parse_json invalid_status (err e) = err e
  parse_json invalid_status (ok text) = elim (platform.parse_json text) [
    | none ↦ refuse invalid_status not_json
    | some value ↦ ok (text, value)
  ]

  pub read_bounded_json_request : Request → ℕ → Result ReadError (Str × Json)
  read_bounded_json_request request max_bytes =
      if not (is_json_content_type (request.header "content-type"))
      then refuse 415 content_type_required
      else parse_json 400
          (read_bounded_text request.body (request.header "content-length") max_bytes 413)

  pub read_bounded_json_response : Reply → ℕ → Result ReadError (Str × Json)
  read_bounded_json_response reply max_bytes =
      if not (is_json_content_type (reply.header "content-type"))
      then refuse 502 content_type_required
      else parse_json 502
          (read_bounded_text reply.body (reply.header "content-length") max_bytes 502)
