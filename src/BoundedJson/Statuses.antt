-- ===== src/BoundedJson/Statuses.antt =====
-- The statuses with which the body of a request is refused.
use etkin_link.Base.{
  ℕ, ◌+◌, ◌≡◌, refl, Bool, true, false, not, ◌&&◌, ◌||◌, List, [], ◌∷◌, ◌++◌, Option, none, some,
  ltb, leb, ◌==◌, length, if◌then◌else◌,
}
use etkin_link.Int.{pos, ltb_ℤ}
use etkin_link.Text.{Str}
use etkin_link.Json.{Json}
use etkin_link.Http.{
  Chunk, bytes, broken, Body, Request, Platform, decode_utf8, Number, not_finite, whole,
  broken_number,
}
use etkin_link.Effect.{Result, ok, err}
use etkin_link.BoundedJson.{
  ReadError, bounded, thrown, refuse, Reason, is_json_content_type, check_declared,
  max_safe_integer, read_chunks, decode_bytes, check_header, read_stream, read_bounded_text,
  parse_json, read_bounded_json_request,
}

-- 400, 413 and 415.
abbrev pub Refused : ℕ → Type 0
Refused status = (status == 400 || (status == 413 || status == 415)) ≡ true

abbrev pub RefusedWell : {A : Type 0} → Result ReadError A → Type 0
RefusedWell (ok a) = Unit
RefusedWell (err thrown) = Unit
RefusedWell (err (bounded e)) = Refused e.status

if-RefusedWell :
    {A : Type 0} (b : Bool) (m n : Result ReadError A)
    → RefusedWell m
    → RefusedWell n
    → RefusedWell (if b then m else n)
if-RefusedWell true m n hm hn = hm
if-RefusedWell false m n hm hn = hn

check_declared-RefusedWell : (n : Number) (max : ℕ) → RefusedWell (check_declared n max 413)
unfolding check_declared
check_declared-RefusedWell not_finite max = refl
check_declared-RefusedWell (broken_number a b) max = refl
check_declared-RefusedWell (whole n) max =
    if-RefusedWell {A = Unit {0}} (ltb_ℤ (pos max_safe_integer) n || ltb_ℤ n (pos 0))
      (refuse 413 Reason.content_length_invalid)
      (if ltb_ℤ (pos max) n then refuse 413 Reason.body_too_large else ok tt) refl
      (if-RefusedWell {A = Unit {0}} (ltb_ℤ (pos max) n) (refuse 413 Reason.body_too_large) (ok tt)
        refl tt)

read_chunks-RefusedWell :
    (max : ℕ) (chunks : List Chunk) (total : ℕ) (received : List ℕ)
    → RefusedWell (read_chunks max 413 chunks total received)
unfolding read_chunks
read_chunks-RefusedWell max [] total received = tt
read_chunks-RefusedWell max (broken ∷ rest) total received = tt
read_chunks-RefusedWell max (bytes value ∷ rest) total received =
    if-RefusedWell (ltb max (total + length value)) _ _ refl
      (read_chunks-RefusedWell max rest (total + length value) (received ++ value))

module _ (platform : Platform) where
  check_header-RefusedWell :
      (header : Option Str) (max : ℕ) → RefusedWell (check_header platform header max 413)
  unfolding check_header
  check_header-RefusedWell none max = tt
  check_header-RefusedWell (some value) max = check_declared-RefusedWell (platform.number value) max

  decode_bytes-RefusedWell :
      (r : Result ReadError (List ℕ)) → RefusedWell r → RefusedWell (decode_bytes platform 413 r)
  unfolding decode_bytes
  decode_bytes-RefusedWell (err thrown) h = tt
  decode_bytes-RefusedWell (err (bounded e)) h = h
  decode_bytes-RefusedWell (ok received) h = decoded (decode_utf8 platform received)
    where
      decoded :
          (o : Option Str)
          → RefusedWell {A = Str} (elim o [
            | none ↦ refuse (if leb 413 413 && leb 413 413 then 400 else 502) Reason.not_utf_8
            | some text ↦ ok text
          ])
      decoded none = refl
      decoded (some text) = tt

  read_stream-RefusedWell :
      (body : Option Body) (max : ℕ) → RefusedWell (read_stream platform body max 413)
  unfolding read_stream
  read_stream-RefusedWell none max = tt
  read_stream-RefusedWell (some body) max =
      decode_bytes-RefusedWell _ (read_chunks-RefusedWell max body.chunks 0 [])

  after_header :
      (r : Result ReadError (Unit {0})) (m : Result ReadError Str)
      → RefusedWell r
      → RefusedWell m
      → RefusedWell (elim r as (λ _. Result ReadError Str) [ err e ↦ err e | ok _ ↦ m ])
  after_header (err thrown) m hr hm = tt
  after_header (err (bounded e)) m hr hm = hr
  after_header (ok u) m hr hm = hm

  parse_json-RefusedWell :
      (r : Result ReadError Str) → RefusedWell r → RefusedWell (parse_json platform 400 r)
  unfolding parse_json
  parse_json-RefusedWell (err thrown) h = tt
  parse_json-RefusedWell (err (bounded e)) h = h
  parse_json-RefusedWell (ok text) h = parsed (platform.parse_json text)
    where
      parsed :
          (o : Option Json)
          → RefusedWell {A = Str × Json}
              (elim o [ none ↦ refuse 400 Reason.not_json | some value ↦ ok (text, value) ])
      parsed none = refl
      parsed (some value) = tt

  pub read_bounded_json_request-RefusedWell :
      (request : Request) (max : ℕ) → RefusedWell (read_bounded_json_request platform request max)
  unfolding read_bounded_json_request read_bounded_text
  read_bounded_json_request-RefusedWell request max =
      if-RefusedWell (not (is_json_content_type (request.header "content-type")))
        (refuse 415 Reason.content_type_required) _ refl
        (parse_json-RefusedWell _ (
          after_header _ _ (check_header-RefusedWell (request.header "content-length") max)
            (read_stream-RefusedWell request.body max)))
