-- ===== src/DeleteAccount/Handler.antt =====
-- The deletion handler, stage by stage: supabase/functions/delete-account/handler.ts.
pub mod Safety
pub mod Stages
pub mod Phases
pub mod Pages
pub mod Removal
pub mod Protocol
pub mod Order
mod Tests
use etkin_link.Base.{
  ℕ, zero, suc, ◌+◌, Bool, true, false, not, ◌&&◌, ◌||◌, List, [], ◌∷◌, Option, none, some, ltb,
  leb, ◌==◌, if◌then◌else◌, length, take, drop, last_or,
}
use etkin_link.Int.{ℤ}
use etkin_link.Text.{Str, codes, str_eq, str_le, to_lower_case, index_of}
use etkin_link.Text.Pattern.{matches, uuid}
use etkin_link.Json.{Json}
use etkin_link.Http.{Request, Platform}
use etkin_link.Effect.{Result, ok, err, Act, pure, throw, call, throw_none, ◌>>=◌, ◌>>◌, throw_if}
use etkin_link.DeleteAccount.State
use etkin_link.DeleteAccount.State.{
  Phase, requested, auth_deleted, storage_deleting, completed, phase_rank, phase_eq, DeletionState,
  Claims, AuthState, Code, Answer, error, deleted, resumable, Response, Call, Dependencies, Exit,
  answer, out_of_fuel,
}
use etkin_link.DeleteAccount.Request.{
  RequestBodyError, read_bounded_json_body, recent_login_is_valid, parse_client_request_id,
  bearer_token,
}

abbrev pub storage_list_page_size : ℕ
storage_list_page_size = 100

abbrev pub storage_remove_chunk_size : ℕ
storage_remove_chunk_size = 100

abbrev pub max_storage_objects_per_invocation : ℕ
max_storage_objects_per_invocation = 5_000

abbrev pub error_response : ℕ → Code → Exit
error_response status code = answer (record { status = status; body = error code })

abbrev pub completed_response : DeletionState → Bool → Response
completed_response state idempotent = record {
  status = 200;
  body = deleted state.client_request_id idempotent;
}

-- `state.userId.toLowerCase() !== userId`
pub is_foreign : Str → DeletionState → Bool
is_foreign user_id state = not (str_eq (to_lower_case state.user_id) user_id)

-- `index === n`, where no index is -1.
abbrev pub is_at : ℕ → Option ℕ → Bool
is_at n none = false
is_at n (some i) = i == n

-- The test of a page of paths, from the index on whose path before is given: every path lies
-- directly in the folder of the user, after the last page, and after the path before it.
pub invalid_paths : Str → Str → Option Str → List Str → Bool
invalid_paths user_id after previous [] = false
invalid_paths user_id after previous (path ∷ paths) =
    not (is_at (length user_id) (index_of b'/' path))
    || not (str_eq (to_lower_case (take (length user_id) path)) user_id)
    || str_le path after
    || elim previous [ none ↦ false | some before ↦ str_le path before ]
    || invalid_paths user_id after (some path) paths

-- `for (index = 0; index < items.length; index += size) items.slice(index, index + size)`; the fuel
-- is the length.
pub slices_fuel {ℓ} : {A : Type ℓ} → ℕ → ℕ → List A → List (List A)
slices_fuel zero size items = []
slices_fuel (suc fuel) size [] = []
slices_fuel (suc fuel) size (x ∷ xs) =
    take size (x ∷ xs) ∷ slices_fuel fuel size (drop size (x ∷ xs))

pub slices {ℓ} : {A : Type ℓ} → ℕ → List A → List (List A)
unfolding slices_fuel
slices size items = slices_fuel (length items) size items

-- A state of the store that is at least as far as the phase aimed at, for the same user.
pub recovery : DeletionState → Phase → Option (Option DeletionState) → Option DeletionState
recovery state next (some (some current)) =
    if str_eq current.user_id state.user_id && leb (phase_rank next) (phase_rank current.phase)
    then some current
    else none
recovery state next _ = none

-- `after ?? ""`
abbrev pub text_or_empty : Option Str → Str
text_or_empty none = []
text_or_empty (some s) = s

module _ {W : Type 0} (platform : Platform) (deps : Dependencies W) where
  abbrev pub Step : Type 0 → Type 0
  Step A = Act W Call Exit A

  -- The answer of the store does not matter, nor does its failure.
  pub record_failure : DeletionState → Code → Step (Option DeletionState)
  record_failure state code =
      call (deps.advance state.user_id state.client_request_id state.phase state.phase (some code))
        (State.advance_request state.user_id state.client_request_id state.phase state.phase
          (some code))

  pub recover : DeletionState → Phase → Option DeletionState → Step (Option DeletionState)
  recover state next (some moved) = pure (some moved)
  recover state next none = do
    current ← call (deps.get state.client_request_id) (State.get_request state.client_request_id)
    pure (recovery state next current)

  -- `none` is the error of the transition, thrown again.
  pub advance_with_concurrent_recovery : DeletionState → Phase → Step (Option DeletionState)
  advance_with_concurrent_recovery state next = do
    moved ←
        call (deps.advance state.user_id state.client_request_id state.phase next none)
          (State.advance_request state.user_id state.client_request_id state.phase next none)
    recover state next moved

  pub reject_foreign : Str → DeletionState → Step (Unit {0})
  reject_foreign user_id state =
      throw_if (is_foreign user_id state) (error_response 403 State.request_owner_mismatch)

  pub finish_if_completed : DeletionState → Step (Unit {0})
  finish_if_completed state =
      throw_if (phase_eq state.phase completed) (answer (completed_response state true))

  pub read_auth_state : Str → Step AuthState
  read_auth_state user_id = do
    reply ← call (deps.auth_state user_id) (State.get_auth_state user_id)
    throw_none (error_response 502 State.auth_state_read_failed) reply

  pub require_recent_login : Claims → AuthState → Step (Unit {0})
  require_recent_login claims auth = do
    now ← call deps.now State.clock
    throw_if (not (recent_login_is_valid platform claims auth.last_sign_in_at now))
        (error_response 403 State.recent_login_required)

  -- `if (!state)`: a first request, which wants an account and a recent login.
  pub begin_deletion : Claims → Str → Str → Step (DeletionState × Option AuthState)
  begin_deletion claims user_id client_request_id = do
    auth ← read_auth_state user_id
    throw_if (not auth.exists) (error_response 401 State.auth_user_not_found)
    require_recent_login claims auth
    begun ←
        call (deps.begin user_id client_request_id) (State.begin_request user_id client_request_id)
    state ← throw_none (error_response 502 State.deletion_state_create_failed) begun
    reject_foreign user_id state
    finish_if_completed state
    pure (state, some auth)

  pub continue_or_begin :
      Claims → Str → Str → Option DeletionState → Step (DeletionState × Option AuthState)
  continue_or_begin claims user_id client_request_id none =
      begin_deletion claims user_id client_request_id
  continue_or_begin claims user_id client_request_id (some state) = do
    reject_foreign user_id state
    finish_if_completed state
    pure (state, none)

  pub load_request : Claims → Str → Str → Step (DeletionState × Option AuthState)
  load_request claims user_id client_request_id = do
    reply ← call (deps.get client_request_id) (State.get_request client_request_id)
    stored ← throw_none (error_response 502 State.deletion_state_read_failed) reply
    continue_or_begin claims user_id client_request_id stored

  pub known_auth_state : Str → Option AuthState → Step AuthState
  known_auth_state user_id none = read_auth_state user_id
  known_auth_state user_id (some auth) = pure auth

  -- After the deletion of the account the status is read again, and decides.
  pub confirm_deleted : DeletionState → Option AuthState → Step (Unit {0})
  confirm_deleted state none =
      record_failure state State.auth_delete_status_unknown
      >> throw (error_response 502 State.auth_delete_status_unknown)
  confirm_deleted state (some auth) =
      if auth.exists
      then (record_failure state State.auth_delete_failed
          >> throw (error_response 502 State.auth_delete_failed))
      else pure tt

  pub delete_auth_user : Claims → Str → DeletionState → AuthState → Step (Unit {0})
  delete_auth_user claims user_id state auth = do
    require_recent_login claims auth
    call (deps.delete_auth user_id) (State.delete_auth_user user_id)
    reply ← call (deps.auth_state user_id) (State.get_auth_state user_id)
    confirm_deleted state reply

  -- `if (state.phase === "requested")`
  pub auth_stage : Claims → Str → DeletionState × Option AuthState → Step DeletionState
  auth_stage claims user_id (state, known) =
      if phase_eq state.phase requested
      then (do
        auth ← known_auth_state user_id known
        if auth.exists then delete_auth_user claims user_id state auth else pure tt
        moved ← advance_with_concurrent_recovery state auth_deleted
        throw_none (error_response 502 State.auth_deleted_state_write_failed) moved)
      else pure state

  -- `if (state.phase === "auth_deleted")`, and the checks after it
  pub storage_stage : DeletionState → Step DeletionState
  storage_stage state = do
    state' ←
        if phase_eq state.phase auth_deleted
        then (do
          moved ← advance_with_concurrent_recovery state storage_deleting
          throw_none (error_response 502 State.storage_deleting_state_write_failed) moved)
        else pure state
    finish_if_completed state'
    throw_if (not (phase_eq state'.phase storage_deleting))
        (error_response 502 State.deletion_state_invalid)
    pure state'

  pub removed_or_failed : DeletionState → Bool → Step (Unit {0})
  removed_or_failed state true = pure tt
  removed_or_failed state false =
      record_failure state State.storage_delete_failed
      >> throw (error_response 502 State.storage_delete_failed)

  pub remove_chunks : DeletionState → List (List Str) → Step (Unit {0})
  remove_chunks state [] = pure tt
  remove_chunks state (chunk ∷ rest) = do
    removed ← call (deps.remove_paths chunk) (State.remove_storage_paths chunk)
    removed_or_failed state removed
    remove_chunks state rest

  pub listed_or_failed : DeletionState → Option (List Str) → Step (List Str)
  listed_or_failed state (some paths) = pure paths
  listed_or_failed state none =
      record_failure state State.storage_list_failed
      >> throw (error_response 502 State.storage_list_failed)

  pub check_page : Str → DeletionState → Option Str → List Str → Step (Unit {0})
  check_page user_id state after paths =
      if ltb storage_list_page_size (length paths)
        || invalid_paths user_id (text_or_empty after) none paths
      then (record_failure state State.storage_list_invalid
          >> throw (error_response 502 State.storage_list_invalid))
      else pure tt

  -- One page: what is listed, once it has been checked.
  pub list_page : Str → Str → DeletionState → Option Str → Step (List Str)
  list_page user_id client_request_id state after = do
    reply ←
        call (deps.list_paths user_id client_request_id after storage_list_page_size)
          (State.list_storage_paths user_id client_request_id after storage_list_page_size)
    paths ← listed_or_failed state reply
    check_page user_id state after paths
    pure paths

  -- `while (removedCount < MAX_STORAGE_OBJECTS_PER_INVOCATION)`; the count at the end.
  pub remove_loop : ℕ → Str → Str → DeletionState → Option Str → ℕ → Step ℕ
  remove_loop zero user_id client_request_id state after removed_count =
      if ltb removed_count max_storage_objects_per_invocation
      then throw out_of_fuel
      else pure removed_count
  remove_loop (suc fuel) user_id client_request_id state after removed_count =
      let round = (do
        paths ← list_page user_id client_request_id state after
        elim paths [
          | [] ↦ pure removed_count
          | path ∷ more ↦ do
            remove_chunks state (slices storage_remove_chunk_size (path ∷ more))
            remove_loop fuel user_id client_request_id state (some (last_or more path))
                (removed_count + length (path ∷ more))
        ]) in
      if ltb removed_count max_storage_objects_per_invocation then round else pure removed_count

  pub finish_deletion : Str → DeletionState → ℕ → Step Response
  finish_deletion client_request_id state removed_count = do
    throw_if (leb max_storage_objects_per_invocation removed_count)
        (answer (record { status = 202; body = resumable client_request_id }))
    moved ← advance_with_concurrent_recovery state completed
    done ← throw_none (error_response 502 State.completed_state_write_failed) moved
    pure (completed_response done false)

  -- What follows the checks of the token.
  pub run_deletion : Claims → Str → Step Response
  run_deletion claims client_request_id = do
    let user_id = to_lower_case claims.sub
    loaded ← load_request claims user_id client_request_id
    authless ← auth_stage claims user_id loaded
    state ← storage_stage authless
    removed_count ←
        remove_loop max_storage_objects_per_invocation user_id client_request_id state none 0
    finish_deletion client_request_id state removed_count

  pub body_or_answer : Result RequestBodyError Json → Step Json
  body_or_answer (ok payload) = pure payload
  body_or_answer (err e) = throw (error_response e.status e.code)

  -- `!UUID_PATTERN.test(claims.sub) || !Number.isFinite(claims.iat) || !Number.isInteger(claims.iat)`
  abbrev pub malformed : Claims → Bool
  malformed claims =
      not (matches uuid claims.sub) || elim claims.iat [ none ↦ true | some _ ↦ false ]

  pub delete_account : Request → Step Response
  delete_account request = do
    throw_if (not (str_eq request.method (codes "POST")))
        (error_response 405 State.method_not_allowed)
    payload ← body_or_answer (read_bounded_json_body platform request)
    client_request_id ←
        throw_none (error_response 400 State.invalid_client_request_id)
          (parse_client_request_id payload)
    token ← throw_none (error_response 401 State.auth_required) (bearer_token request)
    verified ← call (deps.verify token) (State.verify_token token)
    claims ← throw_none (error_response 401 State.token_invalid) verified
    throw_if (malformed claims) (error_response 401 State.token_invalid)
    run_deletion claims client_request_id
