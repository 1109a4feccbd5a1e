-- ===== src/WorkerAuth.antt =====
-- Signed calls of the background workers: supabase/functions/_shared/workerAuth.ts. The text encoder
-- and the HMAC of the platform are arguments.
pub mod Bits
pub mod Compare
pub mod Signing
mod Tests
use Prim.Native.Nat.{bit_or, bit_xor}
use etkin_link.Base.{
  ℕ, zero, suc, ◌+◌, ◌-◌, ◌/◌, ◌%◌, String, Bool, true, not, ◌&&◌, ◌||◌, List, [], ◌∷◌, ◌++◌,
  Option, none, some, ltb, leb, ◌==◌, if◌then◌else◌, length, all,
}
use etkin_link.Text.{Str, codes, to_lower_case, is_digit, all_digits, decimal}
use etkin_link.Text.Pattern.{Class, hex, exactly, letter, between, matches, times, uuid_versions}
use etkin_link.Http.{Request}

-- `difference |= (left[index] ?? 0) ^ (right[index] ?? 0)` up to the end of the longer list
pub mix : List ℕ → List ℕ → ℕ → ℕ
mix [] [] difference = difference
mix (a ∷ left) [] difference = mix left [] (bit_or difference (bit_xor a 0))
mix [] (b ∷ right) difference = mix [] right (bit_or difference (bit_xor 0 b))
mix (a ∷ left) (b ∷ right) difference = mix left right (bit_or difference (bit_xor a b))

-- On the bytes of the two texts.
pub equal_bytes : List ℕ → List ℕ → Bool
unfolding mix
equal_bytes left right = mix left right (bit_xor (length left) (length right)) == 0

pub record Crypto : Type 0 where
  pub encode : Str → List ℕ  -- `new TextEncoder().encode`
  pub hmac : List ℕ → List ℕ → List ℕ  -- HMAC with SHA-256, of a key and a message

unfoldable pub constant_time_equal : Crypto → Str → Str → Bool
unfolding equal_bytes
constant_time_equal crypto left right = equal_bytes (crypto.encode left) (crypto.encode right)

abbrev pub max_worker_clock_skew_seconds : ℕ
max_worker_clock_skew_seconds = 300

-- /^v1=([0-9a-f]{64})$/i
abbrev pub signature_pattern : List Class
signature_pattern = letter b'v' ∷ exactly b'1' ∷ exactly b'=' ∷ times 64 hex []

pub record WorkerAuthorization : Type 0 where
  pub nonce : Str
  pub scope : Str
  pub timestamp : ℕ

-- The decimal digits of a number of at most `fuel` digits.
pub print_digits : ℕ → ℕ → Str → Str
print_digits zero n rest = rest
print_digits (suc fuel) n rest =
    let more = print_digits fuel (n / 10) ((b'0' + n % 10) ∷ rest) in
    if ltb n 10 then (b'0' + n) ∷ rest else more

-- `${n}` for a timestamp of at most ten digits
pub print_timestamp : ℕ → Str
unfolding print_digits
print_timestamp n = print_digits 10 n []

unfoldable pub canonical_worker_message : ℕ → Str → Str → Str → Str
unfolding print_timestamp
canonical_worker_message timestamp nonce scope raw_body =
    print_timestamp timestamp ++ (10 ∷ (nonce ++ (10 ∷ (scope ++ (10 ∷ raw_body)))))

hex_digit : ℕ → ℕ
hex_digit d = if ltb d 10 then b'0' + d else b'a' + (d - 10)

-- `byte.toString(16).padStart(2, "0")`, joined
pub to_hex : List ℕ → Str
unfolding hex_digit
to_hex [] = []
to_hex (byte ∷ bytes) = hex_digit (byte / 16) ∷ hex_digit (byte % 16) ∷ to_hex bytes

unfoldable pub create_worker_signature : Crypto → Str → ℕ → Str → Str → Str → Str
create_worker_signature crypto worker_secret timestamp nonce scope raw_body =
    codes "v1="
    ++ to_hex (
        crypto.hmac (crypto.encode worker_secret)
          (crypto.encode (canonical_worker_message timestamp nonce scope raw_body)))

abbrev pub header_or_empty : Option Str → Str
header_or_empty none = []
header_or_empty (some value) = value

-- /^[a-z0-9-]{1,64}$/
unfoldable pub is_scope : Str → Bool
unfolding is_digit
is_scope s =
    leb 1 (length s)
    && leb (length s) 64
    && all (λ c. (leb b'a' c && leb c b'z') || is_digit c || c == b'-') s

-- `Math.abs(a - b)`
abbrev pub distance : ℕ → ℕ → ℕ
distance a b = (a - b) + (b - a)

-- The checks of the headers that need no key.
unfoldable pub well_formed : Str → Str → Str → ℕ → Bool
well_formed timestamp nonce signature now_ms =
    (length timestamp == 10)
    && all_digits timestamp
    && matches (uuid_versions (between b'1' b'5')) nonce
    && leb (distance (now_ms / 1000) (decimal timestamp)) max_worker_clock_skew_seconds
    && matches signature_pattern signature

unfoldable pub authorize_worker_request :
    Crypto → Request → Str → Str → Str → ℕ → Option WorkerAuthorization
authorize_worker_request crypto request worker_secret scope raw_body now_ms =
    let timestamp = header_or_empty (request.header "x-push-worker-timestamp") in
    let nonce = header_or_empty (request.header "x-push-worker-nonce") in
    let signature = header_or_empty (request.header "x-push-worker-signature") in
    let expected =
      create_worker_signature crypto worker_secret (decimal timestamp) (to_lower_case nonce) scope
        raw_body in
    if ltb (length worker_secret) 32 || not (is_scope scope)
    then none
    else if not (well_formed timestamp nonce signature now_ms)
    then none
    else if not (constant_time_equal crypto (to_lower_case signature) expected)
    then none
    else some (record { nonce = to_lower_case nonce; scope = scope; timestamp = decimal timestamp })
