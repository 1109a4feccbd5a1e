-- ===== src/DeleteAccount/Handler/Tests.antt =====
-- Runs of the deletion function over a small world, and the properties at concrete inputs.
use etkin_link.Base.{
  ◌≡◌, refl, String, Bool, true, false, List, [], ◌∷◌, ◌++◌, Option, none, some, if◌then◌else◌,
}
use etkin_link.Int.{pos}
use etkin_link.Text.{Str, codes, str_eq, str_lt, to_lower_case, index_of}
use etkin_link.Text.Pattern.{matches}
use etkin_link.Json.{obj, str, field, end}
use etkin_link.Http.{bytes, not_finite, Request, Platform}
use text.Mathlib.Text.{◌==◌ as str_is}
use etkin_link.Effect.{ok, ◌>>=◌, throw_if}
use etkin_link.DeleteAccount.State.{
  Phase, requested, phase_eq, DeletionState, deleted, Dependencies,
}
use etkin_link.DeleteAccount.Request.{
  read_bounded_json_body, recent_login_is_valid, parse_client_request_id, bearer_token,
}
use etkin_link.DeleteAccount.Handler.{
  is_foreign, invalid_paths, slices, recovery, delete_account, run_deletion, finish_deletion,
  remove_loop, list_page, check_page, listed_or_failed, remove_chunks, removed_or_failed,
  storage_stage, auth_stage, delete_auth_user, confirm_deleted, known_auth_state, load_request,
  continue_or_begin, begin_deletion, require_recent_login, read_auth_state, finish_if_completed,
  reject_foreign, advance_with_concurrent_recovery, recover, record_failure, body_or_answer,
}
use etkin_link.Effect.Protocol.{Follows, Ends, after}
use etkin_link.DeleteAccount.Handler.Safety.{
  nothing_known, observe, Allowed, Justified, Stopped, Ascends,
}
use etkin_link.DeleteAccount.Handler.Stages.{MovesRow}
use etkin_link.DeleteAccount.Handler.Protocol.{delete_account-Follows}
use etkin_link.DeleteAccount.Handler.Order.{removed_paths, delete_account-Ascends}

abbrev user : Str
user = codes "0a0a0a0a-1111-4222-8333-444444444444"

abbrev request_id : Str
request_id = codes "0b0b0b0b-1111-4222-8333-444444444444"

-- One account, its stored request and its photos.
record World : Type 0 where
  account : Bool
  stored : Option DeletionState
  photos : List Str

abbrev row : Str → Str → Phase → DeletionState
row u r p = record {
  user_id = u;
  client_request_id = r;
  phase = p;
  recent_login_verified_at = [];
  attempt_count = 0;
  last_error_code = none;
  updated_at = [];
}

above : Option Str → List Str → List Str
unfolding str_lt
above none ps = ps
above (some c) [] = []
above (some c) (p ∷ ps) = if str_lt c p then p ∷ above (some c) ps else above (some c) ps

abbrev backend : Dependencies World
unfolding above
backend = record {
  now = λ w. (pos 1_000_000, w);
  verify = λ t w. (
    some (record { sub = codes "0A0A0A0A-1111-4222-8333-444444444444"; iat = some (pos 900) }),
    w,
  );
  get = λ r w. (some w.stored, w);
  begin = λ u r w. (some (row u r requested), record w { stored = some (row u r requested) });
  advance = λ u r p q c w. (some (row u r q), record w { stored = some (row u r q) });
  auth_state =
      λ u w. (some (record { exists = w.account; last_sign_in_at = some (codes "now") }), w);
  delete_auth = λ u w. (true, record w { account = false });
  list_paths = λ u r after n w. (some (above after w.photos), w);
  remove_paths = λ ps w. (true, record w { photos = [] });
}

abbrev platform : Platform
platform = record {
  decode_stream = λ held new. some (new, []);
  decode_end = λ held. some [];
  parse_json = λ s. some (obj (field (codes "client_request_id") (str s) end));
  date_parse = λ s. some (pos 950_000);
  number = λ s. not_finite;
}

abbrev headers : String → Option Str
headers name =
    if str_is name "content-type"
    then some (codes "Application/JSON; charset=utf-8")
    else if str_is name "authorization"
    then some (codes "bearer  abc")
    else none

abbrev request : Request
request = record {
  method = codes "POST";
  header = headers;
  body = some (record { chunks = bytes request_id ∷ []; cancel_fails = false });
}

abbrev before_run : World
before_run = record {
  account = true;
  stored = none;
  photos = (user ++ codes "/a.jpg") ∷ (user ++ codes "/b.jpg") ∷ [];
}

opened : Unit {0}
unfolding delete_account run_deletion finish_deletion remove_loop list_page check_page
    listed_or_failed remove_chunks removed_or_failed storage_stage auth_stage delete_auth_user
    confirm_deleted known_auth_state load_request continue_or_begin begin_deletion
    require_recent_login read_auth_state finish_if_completed reject_foreign
    advance_with_concurrent_recovery recover record_failure body_or_answer recovery slices
    invalid_paths is_foreign str_eq str_lt to_lower_case index_of phase_eq throw_if ◌>>=◌
    read_bounded_json_body recent_login_is_valid parse_client_request_id bearer_token matches
opened = tt

run :
    (delete_account platform backend request before_run).0
    ≡ ok (record { status = 200; body = deleted request_id false })
unfolding opened backend
run = refl

backend-MovesRow : MovesRow backend
unfolding backend
backend-MovesRow u r p q e w s h = (cc, cc)

delete_account-Follows_example :
    Follows
      (Allowed platform)
      observe
      nothing_known
      (delete_account platform backend request before_run).1
    × Ends Justified Stopped
        (delete_account platform backend request before_run).0
        (after observe nothing_known (delete_account platform backend request before_run).1)
delete_account-Follows_example =
    delete_account-Follows platform backend backend-MovesRow request before_run

delete_account-Ascends_example :
    Ascends [] (removed_paths (delete_account platform backend request before_run).1)
delete_account-Ascends_example =
    delete_account-Ascends platform backend backend-MovesRow request before_run
