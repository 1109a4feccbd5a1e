-- ===== src/WorkerAuth/Tests.antt =====
-- A signed call, and the properties at it.
use etkin_link.Base.{
  ◌≡◌, refl, ◌↔◌, String, true, [], Option, none, some, replicate, if◌then◌else◌, arith,
}
use text.Mathlib.Text.{◌==◌ as str_is}
use etkin_link.Text.{Str, codes, to_lower_case, decimal, all_digits}
use etkin_link.Text.Pattern.{matches}
use etkin_link.Http.{Request}
use etkin_link.WorkerAuth.{
  Crypto, constant_time_equal, WorkerAuthorization, create_worker_signature, is_scope,
  authorize_worker_request,
}
use etkin_link.WorkerAuth.Compare.{constant_time_equal_iff}
use etkin_link.WorkerAuth.Signing.{
  IsGenuine, authorize_worker_request-IsGenuine, authorize_worker_request-signed,
}

-- A digest that does not depend on the message is enough to run the code.
abbrev crypto : Crypto
crypto = record { encode = λ s. s; hmac = λ key message. replicate 32 171 }

abbrev secret : Str
secret = replicate 32 b's'

abbrev nonce : Str
nonce = codes "0A0A0A0A-1111-4222-8333-444444444444"

abbrev scope : Str
scope = codes "push-dispatch"

abbrev timestamp : Str
timestamp = codes "1700000000"

abbrev headers : String → Option Str
headers name =
    if str_is name "x-push-worker-timestamp"
    then some timestamp
    else if str_is name "x-push-worker-nonce"
    then some nonce
    else some
        (create_worker_signature crypto secret (decimal timestamp) (to_lower_case nonce) scope [])

abbrev request : Request
request = record { method = codes "POST"; header = headers; body = none }

abbrev granted : WorkerAuthorization
granted = record { nonce = to_lower_case nonce; scope = scope; timestamp = decimal timestamp }

authorize_worker_request-signed_example :
    authorize_worker_request crypto request secret scope [] 1_700_000_123_000 ≡ some granted
unfolding is_scope all_digits matches decimal
authorize_worker_request-signed_example =
    authorize_worker_request-signed crypto (λ key message. (refl, omega arith)) request secret scope
      [] timestamp nonce 1_700_000_123_000 refl refl refl (omega arith) refl refl refl refl
      (omega arith)

authorize_worker_request-IsGenuine_example :
    IsGenuine crypto request secret scope [] 1_700_000_123_000 granted
authorize_worker_request-IsGenuine_example =
    authorize_worker_request-IsGenuine crypto request secret scope [] 1_700_000_123_000 granted
      authorize_worker_request-signed_example

constant_time_equal_iff_example :
    (constant_time_equal crypto scope nonce ≡ true) ↔ (crypto.encode scope ≡ crypto.encode nonce)
constant_time_equal_iff_example = constant_time_equal_iff crypto scope nonce
