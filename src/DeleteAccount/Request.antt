-- ===== src/DeleteAccount/Request.antt =====
-- Reading the deletion request: the bounded body, the request id, the bearer token
-- (supabase/functions/delete-account/handler.ts).
use etkin_link.Base.{
  ℕ, ◌+◌, ◌*◌, Bool, true, false, not, ◌&&◌, List, [], ◌∷◌, ◌++◌, Option, none, some, ltb, ◌==◌,
  if◌then◌else◌, length, take, drop,
}
use etkin_link.Int.{ℤ, pos, scale, ◌+ℤ◌, ◌-ℤ◌, leb_ℤ}
use etkin_link.Text.{
  Str, codes, str_eq, to_lower_case, is_space, trim, all_digits, decimal, media_type,
}
use etkin_link.Text.Pattern.{matches, uuid_versions, exactly}
use etkin_link.Json.{Json, obj, str, keys, member}
use etkin_link.Http.{Chunk, bytes, broken, Body, Request, Platform}
use etkin_link.Effect.{Result, ok, err}
use etkin_link.DeleteAccount.State.{
  Code, application_json_required, invalid_content_length, request_body_too_large,
  invalid_json_body, Claims,
}

abbrev pub max_request_body_bytes : ℕ
max_request_body_bytes = 1024

abbrev pub recent_login_window_ms : ℕ
recent_login_window_ms = 10 * 60 * 1000

abbrev pub clock_skew_ms : ℕ
clock_skew_ms = 60_000

pub record RequestBodyError : Type 0 where
  pub status : ℕ
  pub code : Code

abbrev pub refuse : {A : Type 0} → ℕ → Code → Result RequestBodyError A
refuse status code = err (record { status = status; code = code })

check_length : Option Str → Result RequestBodyError (Unit {0})
check_length none = ok tt
check_length (some value) =
    if not (all_digits (trim value))
    then refuse 400 invalid_content_length
    else if ltb max_request_body_bytes (decimal (trim value))
    then refuse 413 request_body_too_large
    else ok tt

-- The checks of the headers, before the body is touched.
check_headers : Request → Result RequestBodyError (Unit {0})
unfolding check_length media_type all_digits trim decimal str_eq
check_headers request =
    if not (str_eq (media_type (request.header "content-type")) (codes "application/json"))
    then refuse 415 application_json_required
    else check_length (request.header "content-length")

-- `reader.cancel()` runs inside the `try`, so its failure is reported as a bad body.
too_large : Bool → Result RequestBodyError Str
too_large cancel_fails =
    if cancel_fails then refuse 400 invalid_json_body else refuse 413 request_body_too_large

module _ (platform : Platform) where
  finish_parts : List ℕ → Str → Result RequestBodyError Str
  finish_parts pending parts = elim (platform.decode_end pending) [
    | none ↦ refuse 400 invalid_json_body
    | some text ↦ ok (parts ++ text)
  ]

  -- The `while (true)` of the reader: the bytes so far, those the decoder holds back, the text so far.
  unfoldable pub read_parts : Bool → List Chunk → ℕ → List ℕ → Str → Result RequestBodyError Str
  unfolding finish_parts too_large
  read_parts cancel_fails [] total pending parts = finish_parts pending parts
  read_parts cancel_fails (broken ∷ rest) total pending parts = refuse 400 invalid_json_body
  read_parts cancel_fails (bytes value ∷ rest) total pending parts =
      elim (ltb max_request_body_bytes (total + length value)) [
        | true ↦ too_large cancel_fails
        | false ↦ elim (platform.decode_stream pending value) [
          | none ↦ refuse 400 invalid_json_body
          | some (text, held) ↦
              read_parts cancel_fails rest (total + length value) held (parts ++ text)
        ]
      ]

  parse_body : Result RequestBodyError Str → Result RequestBodyError Json
  parse_body (err e) = err e
  parse_body (ok text) = elim (platform.parse_json text) [
    | none ↦ refuse 400 invalid_json_body
    | some value ↦ ok value
  ]

  read_body : Option Body → Result RequestBodyError Json
  unfolding read_parts parse_body
  read_body none = refuse 400 invalid_json_body
  read_body (some body) = parse_body (read_parts body.cancel_fails body.chunks 0 [] [])

  unfoldable pub read_bounded_json_body : Request → Result RequestBodyError Json
  unfolding check_headers read_body
  read_bounded_json_body request = elim (check_headers request) [
    | err e ↦ err e
    | ok _ ↦ read_body request.body
  ]

  -- `lastSignInAt ? Date.parse(lastSignInAt) : NaN`; the empty text is falsy
  parse_date : Option Str → Option ℤ
  parse_date none = none
  parse_date (some []) = none
  parse_date (some (c ∷ s)) = platform.date_parse (c ∷ s)

  -- Whether both the token and the last sign-in are at most ten minutes old.
  unfoldable pub recent_login_is_valid : Claims → Option Str → ℤ → Bool
  unfolding ◌+ℤ◌ ◌-ℤ◌ parse_date
  recent_login_is_valid claims last_sign_in_at now_ms = elim claims.iat [
    | none ↦ false
    | some iat ↦ elim (parse_date last_sign_in_at) [
      | none ↦ false
      | some last_sign_in_ms ↦
          leb_ℤ (scale 1000 iat) (now_ms +ℤ pos clock_skew_ms)
          && leb_ℤ last_sign_in_ms (now_ms +ℤ pos clock_skew_ms)
          && leb_ℤ (now_ms -ℤ scale 1000 iat) (pos recent_login_window_ms)
          && leb_ℤ (now_ms -ℤ last_sign_in_ms) (pos recent_login_window_ms)
    ]
  ]

-- A text that is a UUID of version 4, in lower case.
version_4 : Option Json → Option Str
version_4 (some (str s)) =
    if matches (uuid_versions (exactly b'4')) s then some (to_lower_case s) else none
version_4 _ = none

unfoldable pub parse_client_request_id : Json → Option Str
unfolding version_4 matches to_lower_case member
parse_client_request_id (obj fields) =
    if not (length (keys fields) == 1)
    then none
    else version_4 (member (codes "client_request_id") fields)
parse_client_request_id _ = none

-- /^Bearer\s+([^\s]+)$/i, after the word: blanks, then one run of others up to the end.
no_space : Str → Bool
unfolding is_space
no_space [] = true
no_space (c ∷ s) = not (is_space c) && no_space s

token_after_spaces : Str → Option Str
token_after_spaces [] = none
token_after_spaces (c ∷ s) =
    if is_space c then token_after_spaces s else if no_space (c ∷ s) then some (c ∷ s) else none

token_after_word : Str → Option Str
token_after_word [] = none
token_after_word (c ∷ s) = if is_space c then token_after_spaces s else none

authorization_token : Str → Option Str
unfolding token_after_word token_after_spaces no_space
authorization_token value =
    if str_eq (to_lower_case (take 6 value)) (codes "bearer")
    then token_after_word (drop 6 value)
    else none

unfoldable pub bearer_token : Request → Option Str
unfolding authorization_token str_eq to_lower_case
bearer_token request = elim (request.header "authorization") [
  | none ↦ none
  | some value ↦ authorization_token value
]
