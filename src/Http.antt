-- ===== src/Http.antt =====
-- Requests as the platform hands them over, and what the platform does for the program: decoding
-- UTF-8, `JSON.parse`, `Date.parse`. These are arguments of the model.
use etkin_link.Base.{ℕ, String, Bool, List, [], ◌++◌, Option, none, some, leb, ◌&&◌}
use etkin_link.Int.{ℤ}
use etkin_link.Text.{Str}
use etkin_link.Json.{Json}

-- What one `reader.read()` gives: bytes, or a rejected promise. The end of the list is `done`.
pub data Chunk : Type 0 where
  bytes : List ℕ → Chunk
  broken : Chunk

pub record Body : Type 0 where
  pub chunks : List Chunk
  pub cancel_fails : Bool  -- `reader.cancel()` rejects

pub record Request : Type 0 where
  pub method : Str
  pub header : String → Option Str  -- `headers.get(name)`, names in lower case
  pub body : Option Body

-- A JavaScript number. One that is not whole is kept by the whole number below it and by its
-- thousandfold, rounded.
pub data Number : Type 0 where
  not_finite : Number
  whole : ℤ → Number
  broken_number : (floor thousandfold : ℤ) → Number

pub record Platform : Type 0 where
  -- `decoder.decode(chunk, { stream: true })`: the bytes held back and the new ones give a text and
  -- the bytes held back now; `none` is a TypeError of a fatal decoder.
  pub decode_stream : List ℕ → List ℕ → Option (Str × List ℕ)
  -- `decoder.decode()` at the end
  pub decode_end : List ℕ → Option Str
  -- `none` is a SyntaxError
  pub parse_json : Str → Option Json
  -- `none` is NaN
  pub date_parse : Str → Option ℤ
  -- `Number(text)`
  pub number : Str → Number

-- `new TextDecoder("utf-8", { fatal: true }).decode(bytes)`
unfoldable pub decode_utf8 : Platform → List ℕ → Option Str
decode_utf8 platform input = elim (platform.decode_stream [] input) [
  | none ↦ none
  | some (text, held) ↦ elim (platform.decode_end held) [
    | none ↦ none
    | some rest ↦ some (text ++ rest)
  ]
]

-- A response of another service, as `fetch` gives it.
pub record Reply : Type 0 where
  pub status : ℕ
  pub header : String → Option Str
  pub body : Option Body

-- `response.ok`
abbrev pub is_ok : Reply → Bool
is_ok reply = leb 200 reply.status && leb reply.status 299
