-- ===== src/WorkerAuth/Signing.antt =====
-- Which calls are authorized: `authorizeWorkerRequest` of supabase/functions/_shared/workerAuth.ts.
use etkin_link.Base.{
  ℕ, zero, suc, ◌*◌, ◌/◌, ◌%◌, ◌≤◌, ◌<◌, ◌≡◌, refl, ap, true, List, [], ◌∷◌, some, length, arith,
  All, map,
}
use etkin_link.Text.{Str, lower, to_lower_case, decimal, all_digits}
use etkin_link.Text.Pattern.{hex, between, is_hex, fits, matches, times, uuid_versions}
use etkin_link.Http.{Request}
use etkin_link.WorkerAuth.{
  Crypto, constant_time_equal, signature_pattern, WorkerAuthorization, hex_digit, to_hex,
  create_worker_signature, header_or_empty, is_scope, distance, max_worker_clock_skew_seconds,
  well_formed, authorize_worker_request,
}
use etkin_link.WorkerAuth.Compare.{constant_time_equal_iff}

-- What an authorization stands for: a long secret, a fresh timestamp, and a signature, up to case,
-- of exactly the data that the authorization names.
pub record IsGenuine (crypto : Crypto) (request : Request) (worker_secret scope raw_body : Str)
    (now_ms : ℕ) (a : WorkerAuthorization) : Type 0 where
  pub long_secret : 32 ≤ length worker_secret
  pub same_scope : a.scope ≡ scope
  pub fresh : distance (now_ms / 1000) a.timestamp ≤ max_worker_clock_skew_seconds
  pub signed :
      crypto.encode (to_lower_case (header_or_empty (request.header "x-push-worker-signature")))
      ≡ crypto.encode
          (create_worker_signature crypto worker_secret a.timestamp a.nonce scope raw_body)

skew_of_well_formed :
    (t n s : Str) (now_ms : ℕ)
    → well_formed t n s now_ms ≡ true
    → distance (now_ms / 1000) (decimal t) ≤ max_worker_clock_skew_seconds
unfolding well_formed
skew_of_well_formed t n s now_ms h = ground arith

-- An authorized call has a secret of 32 characters or more, a timestamp within five minutes, and the
-- signature, up to case, of exactly the nonce, scope, timestamp and body that it is authorized for.
pub authorize_worker_request-IsGenuine :
    (crypto : Crypto) (request : Request) (worker_secret scope raw_body : Str) (now_ms : ℕ)
    (a : WorkerAuthorization)
    → authorize_worker_request crypto request worker_secret scope raw_body now_ms ≡ some a
    → IsGenuine crypto request worker_secret scope raw_body now_ms a
unfolding authorize_worker_request
authorize_worker_request-IsGenuine crypto request worker_secret scope raw_body now_ms a h =
    let timestamp = header_or_empty (request.header "x-push-worker-timestamp") in
    let nonce = header_or_empty (request.header "x-push-worker-nonce") in
    let signature = header_or_empty (request.header "x-push-worker-signature") in
    let fresh = skew_of_well_formed timestamp nonce signature now_ms in
    let same =
      (constant_time_equal_iff crypto (to_lower_case signature) (
        create_worker_signature crypto worker_secret (decimal timestamp) (to_lower_case nonce) scope
          raw_body)).0 in
    record {
      long_secret = ground arith;
      same_scope = ground arith;
      fresh = ground (arith, fresh);
      signed = ground (arith, same);
    }

-- An HMAC with SHA-256 has 32 bytes.
abbrev pub GivesDigests : Crypto → Type 0
GivesDigests crypto =
    (key message : List ℕ)
    → (length (crypto.hmac key message) ≡ 32) × All (λ b. b < 256) (crypto.hmac key message)

hex_digit-hex : (d : ℕ) → d < 16 → is_hex (hex_digit d) ≡ true
unfolding hex_digit is_hex
hex_digit-hex d h = ground arith

lower-hex_digit : (d : ℕ) → d < 16 → lower (hex_digit d) ≡ hex_digit d
unfolding hex_digit lower
lower-hex_digit d h = ground arith

matches-to_hex :
    (n : ℕ) (bytes : List ℕ)
    → length bytes ≡ n
    → All (λ b. b < 256) bytes
    → matches (times (2 * n) hex []) (to_hex bytes) ≡ true
unfolding to_hex matches fits
matches-to_hex zero [] e h = refl
matches-to_hex zero (b ∷ bytes) e h = absurd (omega arith)
matches-to_hex (suc n) [] e h = absurd (omega arith)
matches-to_hex (suc n) (b ∷ bytes) e h =
    let twice : 2 * suc n ≡ suc (suc (2 * n)) = omega arith in
    rw (twice, hex_digit-hex (b / 16) (omega arith), hex_digit-hex (b % 16) (omega arith))
      (matches-to_hex n bytes (omega arith) h.1)

lower-to_hex : (bytes : List ℕ) → All (λ b. b < 256) bytes → map lower (to_hex bytes) ≡ to_hex bytes
unfolding to_hex
lower-to_hex [] h = refl
lower-to_hex (b ∷ bytes) h =
    rw
      (
        lower-hex_digit (b / 16) (omega arith),
        lower-hex_digit (b % 16) (omega arith),
        lower-to_hex bytes h.1,
      )
      refl

module _ (crypto : Crypto) (digests : GivesDigests crypto) (secret : Str) (t : ℕ)
    (nonce scope body : Str) where
  signature-matches :
      matches signature_pattern (create_worker_signature crypto secret t nonce scope body) ≡ true
  unfolding create_worker_signature matches fits
  signature-matches = let (size, small) = digests _ _ in matches-to_hex 32 _ size small

  signature-lower :
      to_lower_case (create_worker_signature crypto secret t nonce scope body)
      ≡ create_worker_signature crypto secret t nonce scope body
  unfolding create_worker_signature to_lower_case
  signature-lower = let (size, small) = digests _ _ in rw (lower-to_hex _ small) refl

formed_of_parts :
    (t n s : Str) (now_ms : ℕ)
    → length t ≡ 10
    → all_digits t ≡ true
    → matches (uuid_versions (between b'1' b'5')) n ≡ true
    → distance (now_ms / 1000) (decimal t) ≤ max_worker_clock_skew_seconds
    → matches signature_pattern s ≡ true
    → well_formed t n s now_ms ≡ true
unfolding well_formed
formed_of_parts t n s now_ms ten digits id skew sig = rw (digits, id, sig) (ground arith)

-- A call that carries the signature of its own data is authorized, if the secret has 32 characters or
-- more, the scope has 1 to 64 lower-case letters, digits and dashes, the timestamp has ten digits and is within five minutes of the
-- clock, the nonce is a UUID of version 1 to 5, and HMAC gives 32 bytes.
pub authorize_worker_request-signed :
    (crypto : Crypto)
    → GivesDigests crypto
    → (request : Request) (secret scope body timestamp nonce : Str) (now_ms : ℕ)
    → request.header "x-push-worker-timestamp" ≡ some timestamp
    → request.header "x-push-worker-nonce" ≡ some nonce
    → request.header "x-push-worker-signature"
      ≡ some (
          create_worker_signature crypto secret
            (decimal timestamp)
            (to_lower_case nonce)
            scope
            body)
    → 32 ≤ length secret
    → is_scope scope ≡ true
    → length timestamp ≡ 10
    → all_digits timestamp ≡ true
    → matches (uuid_versions (between b'1' b'5')) nonce ≡ true
    → distance (now_ms / 1000) (decimal timestamp) ≤ max_worker_clock_skew_seconds
    → authorize_worker_request crypto request secret scope body now_ms
      ≡ some (record { nonce = to_lower_case nonce; scope = scope; timestamp = decimal timestamp })
unfolding authorize_worker_request
authorize_worker_request-signed crypto digests request secret scope body timestamp nonce now_ms ht
      hn hs long sc ten digits id skew =
    let sig =
      create_worker_signature crypto secret (decimal timestamp) (to_lower_case nonce) scope body in
    let formed : well_formed timestamp nonce sig now_ms ≡ true =
      formed_of_parts timestamp nonce sig now_ms ten digits id skew
        (signature-matches crypto digests _ _ _ _ _) in
    let same : constant_time_equal crypto (to_lower_case sig) sig ≡ true =
      (constant_time_equal_iff crypto _ _).1 (
        ap crypto.encode (
          signature-lower crypto digests secret (decimal timestamp) (to_lower_case nonce) scope
            body)) in
    rw (ht, hn, hs) (rw (sc, formed, same) (ground arith))
