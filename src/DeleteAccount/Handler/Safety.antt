-- ===== src/DeleteAccount/Handler/Safety.antt =====
-- The safety protocol of an account deletion: which request may be sent, given the replies so far.
-- It is written without the handler, over the entries that the handler leaves behind.
use etkin_link.Base.{
  ◌≡◌, ◌≤◌, true, false, List, [], ◌∷◌, Option, none, some, length, take, last_or, All,
}
use etkin_link.Int.{ℤ}
use etkin_link.Text.{Str, str_lt, to_lower_case, index_of}
use etkin_link.Http.{Platform}
use etkin_link.DeleteAccount.State.{
  Phase, requested, auth_deleted, storage_deleting, completed, Claims, AuthState, Answer, error,
  deleted, resumable, Response, Call, clock, verify_token, get_request, begin_request,
  advance_request, get_auth_state, delete_auth_user, list_storage_paths, remove_storage_paths, Exit,
  answer, out_of_fuel,
}
use etkin_link.DeleteAccount.Request.{recent_login_is_valid}

-- What the replies so far have shown.
pub record Knowledge : Type 0 where
  pub claims : Option Claims  -- of the verified token
  pub now : Option ℤ
  pub auth : Option AuthState  -- the account, as last read; unknown after a deletion
  pub stored : Option Phase  -- the phase that the store last gave
  pub page : Option (List Str)  -- the paths that were last listed, until they are removed
  pub cursor : Str  -- the last path that was removed

abbrev pub nothing_known : Knowledge
nothing_known = record {
  claims = none;
  now = none;
  auth = none;
  stored = none;
  page = none;
  cursor = [];
}

abbrev pub observe : Knowledge → Call → Knowledge
observe g (clock t) = record g { now = some t }
observe g (verify_token _ reply) = record g { claims = reply }
observe g (get_request _ (some (some state))) = record g { stored = some state.phase }
observe g (get_request _ _) = g
observe g (begin_request _ _ (some state)) = record g { stored = some state.phase }
observe g (begin_request _ _ none) = g
observe g (advance_request _ _ _ _ _ (some state)) = record g { stored = some state.phase }
observe g (advance_request _ _ _ _ _ none) = g
observe g (get_auth_state _ reply) = record g { auth = reply }
observe g (delete_auth_user _ _) = record g { auth = none }
observe g (list_storage_paths _ _ _ _ reply) = record g { page = reply }
observe g (remove_storage_paths paths _) = record g { page = none; cursor = last_or paths g.cursor }

-- The user is the one that the token names.
abbrev pub IsTokenUser : Knowledge → Str → Type 0
IsTokenUser g user_id = (c : Claims) × (g.claims ≡ some c) × (user_id ≡ to_lower_case c.sub)

-- The account exists, and both the token and its last sign-in were recent by the clock last read.
abbrev pub IsRecent : Platform → Knowledge → Type 0
IsRecent platform g =
    (c : Claims) × (a : AuthState) × (t : ℤ) × (g.claims ≡ some c)
    × (g.auth ≡ some a)
    × (a.exists ≡ true)
    × (g.now ≡ some t)
    × (recent_login_is_valid platform c a.last_sign_in_at t ≡ true)

-- The account was read as absent.
abbrev pub IsGone : Knowledge → Type 0
IsGone g = (a : AuthState) × (g.auth ≡ some a) × (a.exists ≡ false)

-- A path of the form "<user>/<name>", the user in any case.
abbrev pub IsOwned : Str → Str → Type 0
IsOwned user_id path =
    (index_of b'/' path ≡ some (length user_id))
    × (to_lower_case (take (length user_id) path) ≡ user_id)

-- Strictly ascending, and above c.
abbrev pub Ascends : Str → List Str → Type 0
Ascends c [] = Unit
Ascends c (p ∷ ps) = (str_lt c p ≡ true) × Ascends p ps

-- What an advance from one phase to another needs. A failure is recorded in the same phase.
abbrev pub MayAdvance : Knowledge → Phase → Phase → Type 0
MayAdvance g requested requested = Unit
MayAdvance g requested auth_deleted = IsGone g
MayAdvance g auth_deleted storage_deleting = Unit
MayAdvance g storage_deleting storage_deleting = Unit
MayAdvance g storage_deleting completed = g.page ≡ some []
MayAdvance g _ _ = ⊥

abbrev pub Allowed : Platform → Knowledge → Call → Type 0
Allowed platform g (clock _) = Unit
Allowed platform g (verify_token _ _) = Unit
Allowed platform g (get_request _ _) = Unit
Allowed platform g (begin_request user_id _ _) = IsTokenUser g user_id × IsRecent platform g
Allowed platform g (advance_request user_id _ expected next _ _) =
    IsTokenUser g (to_lower_case user_id) × (g.stored ≡ some expected) × MayAdvance g expected next
Allowed platform g (get_auth_state user_id _) = IsTokenUser g user_id
Allowed platform g (delete_auth_user user_id _) =
    IsTokenUser g user_id × IsRecent platform g × (g.stored ≡ some requested)
Allowed platform g (list_storage_paths user_id _ _ page_size _) =
    IsTokenUser g user_id × (g.stored ≡ some storage_deleting) × (page_size ≡ 100)
Allowed platform g (remove_storage_paths paths _) =
    (g.stored ≡ some storage_deleting)
    × (g.page ≡ some paths)
    × (length paths ≤ 100)
    × Ascends g.cursor paths
    × ((u : Str) × IsTokenUser g u × All (IsOwned u) paths)

-- What an answer claims of the store is what the store last said.
abbrev pub Justified : Response → Knowledge → Type 0
Justified response g = Claimed response.body
  where
    Claimed : Answer → Type 0
    Claimed (error _) = Unit
    Claimed (deleted _ _) = (g.stored ≡ some completed) × (response.status ≡ 200)
    Claimed (resumable _) = (g.stored ≡ some storage_deleting) × (response.status ≡ 202)

-- An early end is an answer, never a loop that ran out of rounds.
abbrev pub Stopped : Exit → Knowledge → Type 0
Stopped (answer response) g = Justified response g
Stopped out_of_fuel g = ⊥
