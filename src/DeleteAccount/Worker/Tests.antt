-- ===== src/DeleteAccount/Worker/Tests.antt =====
-- A run of the worker over one claim with one photo.
use etkin_link.Base.{
  ◌≡◌, refl, String, true, false, List, [], ◌∷◌, ◌++◌, Option, none, some, replicate, if◌then◌else◌,
}
use text.Mathlib.Text.{◌==◌ as str_is}
use etkin_link.Int.{pos}
use etkin_link.Text.{Str, codes, decimal, str_eq, to_lower_case, index_of}
use etkin_link.Json.{bool, int, obj, field, end}
use etkin_link.Http.{Platform, bytes, not_finite, Request}
use etkin_link.Effect.{ok, ◌>>=◌, throw_if}
use etkin_link.Effect.Protocol.{Follows, Ends, after}
use etkin_link.WorkerAuth.{Crypto, create_worker_signature}
use etkin_link.DeleteAccount.State.{Phase, auth_deleted, phase_eq, DeletionState}
use etkin_link.DeleteAccount.Worker.{
  worker_scope, ContinuationClaim, claimed_auth_deleted, Dependencies, handle_continuation_worker,
  process_claim, finish_or_start, continue_claim, clear_storage, finish_claim, start_storage,
  remove_pages, list_claim_page, advance_phase, recover_phase, current_state, owned_state,
  storage_path_is_owned, claim_completed,
}
use etkin_link.DeleteAccount.Worker.Safety.{fresh, observe, Allowed, Drained, Stopped}
use etkin_link.DeleteAccount.Worker.Batch.{handle_continuation_worker-Follows}

abbrev user : Str
user = codes "0a0a0a0a-1111-4222-8333-444444444444"

abbrev claim : ContinuationClaim
claim = record {
  user_id = user;
  client_request_id = codes "0b0b0b0b-1111-4222-8333-444444444444";
  phase = claimed_auth_deleted;
  attempt_count = 1;
}

abbrev row : Phase → DeletionState
row p = record {
  user_id = user;
  client_request_id = claim.client_request_id;
  phase = p;
  recent_login_verified_at = [];
  attempt_count = 0;
  last_error_code = none;
  updated_at = [];
}

-- The phase of the row, and the photos that are left.
abbrev World : Type 0
World = Phase × List Str

abbrev secret : Str
secret = replicate 32 b's'

abbrev deps : Dependencies World
deps = record {
  worker_secret = some secret;
  now = λ w. (1_700_000_123_000, w);
  consume = λ nonce timestamp w. (some true, w);
  claim = λ size w. (some (claim ∷ []), w);
  get = λ id (p, photos). (some (some (row p)), (p, photos));
  advance = λ user_id id expected next (p, photos). (some (row next), (next, photos));
  list_paths = λ user_id id cursor size (p, photos). (some photos, (p, photos));
  remove_paths = λ paths (p, photos). (true, (p, []));
  release = λ c outcome code w.
      (some (record { accepted = true; terminal = true; next_attempt_at = none }), w);
}

abbrev platform : Platform
platform = record {
  decode_stream = λ held input. some (input, []);
  decode_end = λ held. some [];
  parse_json = λ text.
      some (obj (field (codes "drain") (bool true) (field (codes "batchSize") (int (pos 5)) end)));
  date_parse = λ text. none;
  number = λ text. not_finite;
}

abbrev crypto : Crypto
crypto = record { encode = λ s. s; hmac = λ key message. replicate 32 171 }

abbrev body : Str
body = codes "{\"drain\":true,\"batchSize\":5}"

abbrev nonce : Str
nonce = codes "0a0a0a0a-1111-4222-8333-444444444444"

abbrev headers : String → Option Str
headers name =
    if str_is name "content-type"
    then some (codes "application/json")
    else if str_is name "content-length"
    then none
    else if str_is name "x-push-worker-timestamp"
    then some (codes "1700000000")
    else if str_is name "x-push-worker-nonce"
    then some nonce
    else some (
        create_worker_signature crypto secret (decimal (codes "1700000000")) nonce worker_scope
          body)

abbrev request : Request
request = record {
  method = codes "POST";
  header = headers;
  body = some (record { chunks = bytes body ∷ []; cancel_fails = false });
}

abbrev start : World
start = (auth_deleted, (user ++ codes "/1.jpg") ∷ [])

opened : Unit {0}
unfolding process_claim finish_or_start continue_claim clear_storage finish_claim start_storage
    remove_pages list_claim_page advance_phase recover_phase current_state owned_state
    storage_path_is_owned str_eq to_lower_case index_of phase_eq throw_if ◌>>=◌
opened = tt

-- The claim is completed in one run.
processed : (process_claim deps claim start).0 ≡ ok claim_completed
unfolding opened
processed = refl

handle_continuation_worker-Follows_example :
    Follows
      (Allowed crypto request secret)
      observe
      fresh
      (handle_continuation_worker platform crypto deps request start).1
    × Ends Drained Stopped
        (handle_continuation_worker platform crypto deps request start).0
        (after observe fresh (handle_continuation_worker platform crypto deps request start).1)
handle_continuation_worker-Follows_example =
    handle_continuation_worker-Follows platform crypto deps request start
