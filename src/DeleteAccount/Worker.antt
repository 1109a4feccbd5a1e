-- ===== src/DeleteAccount/Worker.antt =====
-- The worker that finishes deletions: supabase/functions/delete-account/worker.ts.
pub mod Safety
pub mod Claims
pub mod Batch
mod Tests
use etkin_link.Base.{
  ℕ, zero, suc, ◌+◌, String, Bool, true, false, not, ◌&&◌, ◌||◌, List, [], ◌∷◌, Option, none, some,
  ltb, leb, ◌==◌, if◌then◌else◌, length, take, any, last_or,
}
use etkin_link.Text.{Str, codes, str_eq, to_lower_case, index_of}
use etkin_link.Http.{Request, Platform}
use etkin_link.Effect.{
  Result, ok, err, Act, pure, throw, call, throw_none, attempt, ◌>>=◌, ◌>>◌, throw_if,
}
use etkin_link.WorkerAuth.{Crypto, WorkerAuthorization, authorize_worker_request}
use etkin_link.DeleteAccount.State.{
  Phase, requested, auth_deleted, storage_deleting, completed, phase_rank, phase_eq, DeletionState,
}
use etkin_link.DeleteAccount.Drain
use etkin_link.DeleteAccount.Drain.{
  WorkerCode, WorkerRequestError, read_bounded_body, parse_drain_command,
}

abbrev pub worker_scope : Str
worker_scope = codes "delete-account-continuation"

abbrev pub worker_page_size : ℕ
worker_page_size = 100

abbrev pub max_storage_objects_per_claim : ℕ
max_storage_objects_per_claim = 500

pub data ClaimPhase : Type 0 where
  claimed_auth_deleted claimed_storage_deleting : ClaimPhase

pub record ContinuationClaim : Type 0 where
  pub user_id : Str
  pub client_request_id : Str
  pub phase : ClaimPhase
  pub attempt_count : ℕ

pub record Release : Type 0 where
  pub accepted : Bool
  pub terminal : Bool
  pub next_attempt_at : Option Str

pub data Outcome : Type 0 where
  claim_completed claim_resumable claim_failed : Outcome

-- The code of a `ContinuationError`.
pub data ContinuationCode : Type 0 where
  state_read_failed state_invalid state_write_failed : ContinuationCode
  storage_list_failed storage_list_invalid storage_delete_failed complete_failed : ContinuationCode

-- The requests, each with its reply; a reply `none` or `false` is a rejected promise.
pub data Call : Type 0 where
  clock : ℕ → Call
  consume_nonce : (nonce : Str) (timestamp : ℕ) → Option Bool → Call
  claim_continuations : (batch_size : ℕ) → Option (List ContinuationClaim) → Call
  get_request : (client_request_id : Str) → Option (Option DeletionState) → Call
  advance_request :
      (user_id client_request_id : Str) (expected next : Phase) → Option DeletionState → Call
  list_storage_paths :
      (user_id client_request_id : Str) (after : Option Str) (page_size : ℕ)
      → Option (List Str)
      → Call
  remove_storage_paths : List Str → Bool → Call
  release_continuation :
      ContinuationClaim → Outcome → Option ContinuationCode → Option Release → Call

pub record Dependencies (W : Type 0) : Type 0 where
  pub worker_secret : Option Str
  pub now : W → ℕ × W
  pub consume : Str → ℕ → W → Option Bool × W
  pub claim : ℕ → W → Option (List ContinuationClaim) × W
  pub get : Str → W → Option (Option DeletionState) × W
  pub advance : Str → Str → Phase → Phase → W → Option DeletionState × W
  pub list_paths : Str → Str → Option Str → ℕ → W → Option (List Str) × W
  pub remove_paths : List Str → W → Bool × W
  pub release : ContinuationClaim → Outcome → Option ContinuationCode → W → Option Release × W

-- What the processing of a claim throws.
pub data Stop : Type 0 where
  continuation_error : ContinuationCode → Stop
  out_of_fuel : Stop  -- the fuel of the loop is used up

pub record Tally : Type 0 where
  pub completed : ℕ
  pub resumable : ℕ
  pub failed : ℕ
  pub terminal : ℕ

abbrev pub empty_tally : Tally
empty_tally = record { completed = 0; resumable = 0; failed = 0; terminal = 0 }

pub data Answer : Type 0 where
  error : WorkerCode → Answer
  drained : (claimed : ℕ) → Tally → Answer

pub record Response : Type 0 where
  pub status : ℕ
  pub body : Answer

pub data Exit : Type 0 where
  answer : Response → Exit
  ran_out : Exit

abbrev pub error_response : ℕ → WorkerCode → Exit
error_response status code = answer (record { status = status; body = error code })

-- "<user>/<name>", the user in any case, with a name.
pub storage_path_is_owned : Str → Str → Bool
storage_path_is_owned path user_id =
    ltb (length user_id + 1) (length path)
    && elim (index_of b'/' path) [ none ↦ false | some i ↦ i == length user_id ]
    && str_eq (to_lower_case (take (length user_id) path)) user_id

pub count_outcome : Outcome → Tally → Tally
count_outcome claim_completed tally = record tally { completed = suc tally.completed }
count_outcome claim_resumable tally = record tally { resumable = suc tally.resumable }
count_outcome claim_failed tally = record tally { failed = suc tally.failed }

pub count_terminal : Bool → Tally → Tally
count_terminal true tally = record tally { terminal = suc tally.terminal }
count_terminal false tally = tally

module _ {W : Type 0} (deps : Dependencies W) where
  abbrev pub Step : Type 0 → Type 0
  Step A = Act W Call Stop A

  pub owned_state : Str → Option DeletionState → Step DeletionState
  owned_state user_id none = throw (continuation_error state_invalid)
  owned_state user_id (some state) =
      throw_if (not (str_eq (to_lower_case state.user_id) user_id))
        (continuation_error state_invalid)
      >> pure state

  -- `currentState`, which reads these two fields of a claim
  pub current_state : Str → Str → Step DeletionState
  current_state user_id client_request_id = do
    reply ← call (deps.get client_request_id) (get_request client_request_id)
    found ← throw_none (continuation_error state_read_failed) reply
    owned_state user_id found

  pub recover_phase : DeletionState → Phase → Option DeletionState → Step DeletionState
  recover_phase state next_phase (some moved) = pure moved
  recover_phase state next_phase none = do
    recovered ← current_state (to_lower_case state.user_id) state.client_request_id
    throw_if (not (leb (phase_rank next_phase) (phase_rank recovered.phase)))
        (continuation_error state_write_failed)
    pure recovered

  pub advance_phase : DeletionState → Phase → Step DeletionState
  advance_phase state next_phase = do
    moved ←
        call (deps.advance state.user_id state.client_request_id state.phase next_phase)
          (advance_request state.user_id state.client_request_id state.phase next_phase)
    recover_phase state next_phase moved

  pub list_claim_page : ContinuationClaim → Option Str → Step (List Str)
  list_claim_page claim after = do
    reply ←
        call (deps.list_paths claim.user_id claim.client_request_id after worker_page_size)
          (list_storage_paths claim.user_id claim.client_request_id after worker_page_size)
    paths ← throw_none (continuation_error storage_list_failed) reply
    throw_if
        (ltb worker_page_size (length paths)
          || any (λ path. not (storage_path_is_owned path claim.user_id)) paths)
        (continuation_error storage_list_invalid)
    pure paths

  -- `while (removedCount < MAX_STORAGE_OBJECTS_PER_CLAIM)`; the count at the end.
  pub remove_pages : ℕ → ContinuationClaim → Option Str → ℕ → Step ℕ
  remove_pages zero claim after removed_count =
      if ltb removed_count max_storage_objects_per_claim
      then throw out_of_fuel
      else pure removed_count
  remove_pages (suc fuel) claim after removed_count =
      let round = (do
        paths ← list_claim_page claim after
        elim paths [
          | [] ↦ pure removed_count
          | path ∷ more ↦ do
            removed ← call (deps.remove_paths (path ∷ more)) (remove_storage_paths (path ∷ more))
            throw_if (not removed) (continuation_error storage_delete_failed)
            remove_pages fuel claim (some (last_or more path))
                (removed_count + length (path ∷ more))
        ]) in
      if ltb removed_count max_storage_objects_per_claim then round else pure removed_count

  pub start_storage : DeletionState → Step DeletionState
  start_storage state =
      if phase_eq state.phase auth_deleted then advance_phase state storage_deleting else pure state

  pub finish_claim : DeletionState → ℕ → Step Outcome
  finish_claim state removed_count =
      if leb max_storage_objects_per_claim removed_count then pure claim_resumable else (do
        done ← advance_phase state completed
        throw_if (not (phase_eq done.phase completed)) (continuation_error complete_failed)
        pure claim_completed)

  pub clear_storage : ContinuationClaim → DeletionState → Step Outcome
  clear_storage claim state = do
    throw_if (not (phase_eq state.phase storage_deleting)) (continuation_error state_invalid)
    removed_count ← remove_pages max_storage_objects_per_claim claim none 0
    finish_claim state removed_count

  pub continue_claim : ContinuationClaim → DeletionState → Step Outcome
  continue_claim claim state =
      if phase_eq state.phase completed then pure claim_completed else clear_storage claim state

  pub finish_or_start : ContinuationClaim → DeletionState → Step Outcome
  finish_or_start claim state =
      if phase_eq state.phase completed
      then pure claim_completed
      else (start_storage state >>= continue_claim claim)

  pub process_claim : ContinuationClaim → Step Outcome
  process_claim claim = do
    state ← current_state claim.user_id claim.client_request_id
    finish_or_start claim state

-- The `catch` around a claim: the outcome and the code of the release.
pub settle :
    {W : Type 0} → Result Stop Outcome → Act W Call Exit (Outcome × Option ContinuationCode)
settle (ok outcome) = pure (outcome, none)
settle (err (continuation_error code)) = pure (claim_failed, some code)
settle (err out_of_fuel) = throw ran_out

module _ {W : Type 0} (deps : Dependencies W) where
  pub release_claim :
      ContinuationClaim → Outcome → Option ContinuationCode → Act W Call Exit Release
  release_claim claim outcome error_code = do
    reply ←
        call (deps.release claim outcome error_code) (release_continuation claim outcome error_code)
    release ← throw_none (error_response 500 Drain.continuation_release_failed) reply
    throw_if (not release.accepted) (error_response 500 Drain.continuation_release_conflict)
    pure release

  -- One round of `for (const claim of claims)`.
  pub drain_claim : ContinuationClaim → Tally → Act W Call Exit Tally
  drain_claim claim tally = do
    result ← attempt (process_claim deps claim)
    settled ← settle result
    release ← release_claim claim settled.0 settled.1
    pure (count_terminal release.terminal (count_outcome settled.0 tally))

  pub drain_claims : ℕ → List ContinuationClaim → Tally → Act W Call Exit Response
  drain_claims claimed [] tally = pure (record { status = 200; body = drained claimed tally })
  drain_claims claimed (claim ∷ rest) tally = do
    tally' ← drain_claim claim tally
    drain_claims claimed rest tally'

  pub value_or_answer : {A : Type 0} → Result WorkerRequestError A → Act W Call Exit A
  value_or_answer (ok value) = pure value
  value_or_answer (err e) = throw (error_response e.status e.code)

abbrev pub secret_or_empty : Option Str → Str
secret_or_empty none = []
secret_or_empty (some secret) = secret

pub is_account_deletion_worker_request : Request → Bool
is_account_deletion_worker_request request =
    any (λ header. elim (request.header header) [ none ↦ false | some _ ↦ true ])
      ("x-push-worker-timestamp" ∷ "x-push-worker-nonce" ∷ "x-push-worker-signature" ∷ [])

module _ {W : Type 0} (platform : Platform) (crypto : Crypto) (deps : Dependencies W)
    (request : Request) where
  pub claim_batch : ℕ → Act W Call Exit Response
  claim_batch batch_size = do
    found ← call (deps.claim batch_size) (claim_continuations batch_size)
    claims ← throw_none (error_response 500 Drain.continuation_claim_failed) found
    drain_claims deps (length claims) claims empty_tally

  pub run_batch : ℕ → Str → Act W Call Exit Response
  run_batch batch_size raw_body = do
    now ← call deps.now clock
    authorization ← throw_none (error_response 401 Drain.worker_auth_invalid) (
        authorize_worker_request crypto request (secret_or_empty deps.worker_secret) worker_scope
          raw_body now)
    reply ←
        call (deps.consume authorization.nonce authorization.timestamp)
          (consume_nonce authorization.nonce authorization.timestamp)
    nonce_accepted ← throw_none (error_response 500 Drain.worker_nonce_persist_failed) reply
    throw_if (not nonce_accepted) (error_response 401 Drain.worker_request_replayed)
    claim_batch batch_size

  pub handle_continuation_worker : Act W Call Exit Response
  handle_continuation_worker = do
    throw_if (not (str_eq request.method (codes "POST")))
        (error_response 405 Drain.method_not_allowed)
    raw_body ← value_or_answer deps (read_bounded_body platform request)
    batch_size ← value_or_answer deps (parse_drain_command platform raw_body)
    run_batch batch_size raw_body
