-- ===== src/Network/Body.antt =====
-- The text of an answer, of bounded size: `utf8ByteLength` and `readResponseTextLimited` of
-- mobile/src/shared/lib/network.ts. The decoder, the timer and the signal are arguments: what they do
-- while the body is read stands among the parts of the body.
pub mod Bounds
pub mod Encoding
use etkin_link.Base.{
  ℕ, zero, suc, ◌+◌, ◌-◌, ◌*◌, Bool, true, false, not, ◌&&◌, ◌||◌, List, [], ◌∷◌, ◌++◌, Option,
  none, some, ltb, leb, if◌then◌else◌, length,
}
use etkin_link.Int.{ℤ, pos, negsuc, leb_ℤ, ltb_ℤ}
use etkin_link.Text.{Str}
use etkin_link.Http.{Number, not_finite, whole, broken_number}
use etkin_link.Effect.{Result, ok, err}

pub is_high : ℕ → Bool
is_high c = leb 0xd800 c && leb c 0xdbff

pub is_low : ℕ → Bool
is_low c = leb 0xdc00 c && leb c 0xdfff

-- `for (const character of value)`, by code points.
pub code_points : Str → List ℕ
unfolding is_high is_low
code_points [] = []
code_points (a ∷ []) = a ∷ []
code_points (a ∷ b ∷ s) =
    let after_pair = code_points s in
    let after_unit = code_points (b ∷ s) in
    if is_high a && is_low b
    then (0x10000 + (a - 0xd800) * 0x400 + (b - 0xdc00)) ∷ after_pair
    else a ∷ after_unit

pub utf8_width : ℕ → ℕ
utf8_width code_point =
    if leb code_point 0x7f
    then 1
    else if leb code_point 0x7ff
    then 2
    else if leb code_point 0xffff
    then 3
    else 4

pub add_widths : ℕ → List ℕ → ℕ
unfolding utf8_width
add_widths bytes [] = bytes
add_widths bytes (c ∷ rest) = add_widths (bytes + utf8_width c) rest

unfoldable pub utf8_byte_length : Str → ℕ
unfolding code_points add_widths
utf8_byte_length value = add_widths 0 (code_points value)

-- What `reader.read()` gives, and what may come instead. The end of the list is `done`.
pub data Arrival : Type 0 where
  chunk : List ℕ → Arrival
  broken aborted timed_out : Arrival

pub data BodyError : Type 0 where
  bytes_refused timeout_refused : BodyError
  too_large thrown abort_error request_timeout : BodyError

-- A decoder that replaces what is no UTF-8: a text, and the bytes held back.
pub record Decoder : Type 0 where
  pub stream : List ℕ → List ℕ → Str × List ℕ
  pub flush : List ℕ → Str

-- A body with a reader, or one without.
pub data Source : Type 0 where
  readable : List Arrival → Source
  whole_text : Option Str → Source

module _ (decoder : Decoder) where
  -- The loop of `readBody`: the number of bytes, the bytes held back and the text so far.
  pub read_arrivals : ℕ → List Arrival → ℕ → List ℕ → Str → Result BodyError Str
  read_arrivals maximum [] received held result = ok (result ++ decoder.flush held)
  read_arrivals maximum (broken ∷ rest) received held result = err thrown
  read_arrivals maximum (aborted ∷ rest) received held result = err abort_error
  read_arrivals maximum (timed_out ∷ rest) received held result = err request_timeout
  read_arrivals maximum (chunk value ∷ rest) received held result =
      let more =
        read_arrivals maximum rest (received + length value) (decoder.stream held value).1
          (result ++ (decoder.stream held value).0) in
      if ltb maximum (received + length value) then err too_large else more

  -- `response.text()`, where there is no reader.
  pub read_text : ℕ → Option Str → Result BodyError Str
  unfolding utf8_byte_length
  read_text maximum none = err thrown
  read_text maximum (some text) =
      if ltb maximum (utf8_byte_length text) then err too_large else ok text

  pub read_body : ℕ → Source → Result BodyError Str
  unfolding read_arrivals read_text
  read_body maximum (readable arrivals) = read_arrivals maximum arrivals 0 [] []
  read_body maximum (whole_text text) = read_text maximum text

abbrev max_safe_integer : ℕ
max_safe_integer = 9_007_199_254_740_991

-- `Number.isSafeInteger(value)` and not below 1.
pub positive_integer : Number → Option ℕ
positive_integer (whole (pos n)) = if leb 1 n && leb n max_safe_integer then some n else none
positive_integer _ = none

-- `Number.isFinite(declared) && declared > maximum`
pub exceeds : Number → ℕ → Bool
exceeds not_finite maximum = false
exceeds (whole n) maximum = ltb_ℤ (pos maximum) n
exceeds (broken_number below thousandfold) maximum = leb_ℤ (pos maximum) below

module _ (decoder : Decoder) where
  pub read_limited : ℕ → Number → Bool → Source → Result BodyError Str
  unfolding exceeds read_body
  read_limited maximum declared signal_aborted body =
      if exceeds declared maximum
      then err too_large
      else if signal_aborted
      then err abort_error
      else read_body decoder maximum body

  pub check_timeout : Option ℕ → ℕ → Number → Bool → Source → Result BodyError Str
  unfolding read_limited
  check_timeout none maximum declared signal_aborted body = err timeout_refused
  check_timeout (some t) maximum declared signal_aborted body =
      read_limited maximum declared signal_aborted body

  -- The declared length is `Number(headers.get("content-length"))`, 0 for a header that is missing.
  pub read_response_text_limited : Number → Number → Number → Bool → Source → Result BodyError Str
  unfolding positive_integer check_timeout
  read_response_text_limited maximum_bytes timeout_ms declared signal_aborted body =
      elim (positive_integer maximum_bytes) [
        | none ↦ err bytes_refused
        | some maximum ↦
            check_timeout (positive_integer timeout_ms) maximum declared signal_aborted body
      ]
