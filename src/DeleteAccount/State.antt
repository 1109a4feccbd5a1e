-- ===== src/DeleteAccount/State.antt =====
-- The data of the account deletion function: supabase/functions/delete-account/handler.ts.
use etkin_link.Base.{ℕ, ◌≡◌, refl, true, Bool, List, Option, ◌==◌}
use etkin_link.Int.{ℤ}
use etkin_link.Text.{Str}

pub data Phase : Type 0 where
  requested auth_deleted storage_deleting completed : Phase

unfoldable pub phase_rank : Phase → ℕ
phase_rank requested = 0
phase_rank auth_deleted = 1
phase_rank storage_deleting = 2
phase_rank completed = 3

-- `a === b` on phases
unfoldable pub phase_eq : Phase → Phase → Bool
unfolding phase_rank
phase_eq a b = phase_rank a == phase_rank b

pub phase_eq→eq : (a b : Phase) → phase_eq a b ≡ true → a ≡ b
unfolding phase_eq
phase_eq→eq requested requested h = refl
phase_eq→eq auth_deleted auth_deleted h = refl
phase_eq→eq storage_deleting storage_deleting h = refl
phase_eq→eq completed completed h = refl
phase_eq→eq requested auth_deleted h = cc
phase_eq→eq requested storage_deleting h = cc
phase_eq→eq requested completed h = cc
phase_eq→eq auth_deleted requested h = cc
phase_eq→eq auth_deleted storage_deleting h = cc
phase_eq→eq auth_deleted completed h = cc
phase_eq→eq storage_deleting requested h = cc
phase_eq→eq storage_deleting auth_deleted h = cc
phase_eq→eq storage_deleting completed h = cc
phase_eq→eq completed requested h = cc
phase_eq→eq completed auth_deleted h = cc
phase_eq→eq completed storage_deleting h = cc

pub record DeletionState : Type 0 where
  pub user_id : Str
  pub client_request_id : Str
  pub phase : Phase
  pub recent_login_verified_at : Str
  pub attempt_count : ℕ
  pub last_error_code : Option Str
  pub updated_at : Str

-- `iat` is `none` when it is no whole finite number.
pub record Claims : Type 0 where
  pub sub : Str
  pub iat : Option ℤ

pub record AuthState : Type 0 where
  pub exists : Bool
  pub last_sign_in_at : Option Str

-- The codes that answers and failure records carry.
pub data Code : Type 0 where
  application_json_required invalid_content_length request_body_too_large invalid_json_body : Code
  method_not_allowed invalid_client_request_id auth_required token_invalid : Code
  deletion_state_read_failed request_owner_mismatch auth_state_read_failed : Code
  auth_user_not_found recent_login_required deletion_state_create_failed : Code
  auth_delete_status_unknown auth_delete_failed auth_deleted_state_write_failed : Code
  storage_deleting_state_write_failed deletion_state_invalid storage_list_failed : Code
  storage_list_invalid storage_delete_failed completed_state_write_failed : Code

-- The JSON of an answer, without the text for people, which the code determines.
pub data Answer : Type 0 where
  error : Code → Answer
  deleted : (client_request_id : Str) (idempotent : Bool) → Answer
  resumable : (client_request_id : Str) → Answer

pub record Response : Type 0 where
  pub status : ℕ
  pub body : Answer

-- The requests to the database, the auth service and the storage, each with its reply; a reply `none`
-- or `false` is a rejected promise.
pub data Call : Type 0 where
  clock : ℤ → Call
  verify_token : (token : Str) → Option Claims → Call
  get_request : (client_request_id : Str) → Option (Option DeletionState) → Call
  begin_request : (user_id client_request_id : Str) → Option DeletionState → Call
  advance_request :
      (user_id client_request_id : Str) (expected next : Phase) (error_code : Option Code)
      → Option DeletionState
      → Call
  get_auth_state : (user_id : Str) → Option AuthState → Call
  delete_auth_user : (user_id : Str) → Bool → Call
  list_storage_paths :
      (user_id client_request_id : Str) (after : Option Str) (page_size : ℕ)
      → Option (List Str)
      → Call
  remove_storage_paths : List Str → Bool → Call

-- `AccountDeletionDependencies` over a world W.
pub record Dependencies (W : Type 0) : Type 0 where
  pub now : W → ℤ × W
  pub verify : Str → W → Option Claims × W
  pub get : Str → W → Option (Option DeletionState) × W
  pub begin : Str → Str → W → Option DeletionState × W
  pub advance : Str → Str → Phase → Phase → Option Code → W → Option DeletionState × W
  pub auth_state : Str → W → Option AuthState × W
  pub delete_auth : Str → W → Bool × W
  pub list_paths : Str → Str → Option Str → ℕ → W → Option (List Str) × W
  pub remove_paths : List Str → W → Bool × W

-- How a handler ends early: with an answer, or because the fuel of its loop is used up.
pub data Exit : Type 0 where
  answer : Response → Exit
  out_of_fuel : Exit
