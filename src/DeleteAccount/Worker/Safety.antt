-- ===== src/DeleteAccount/Worker/Safety.antt =====
-- The safety protocol of the deletion worker, written over the entries that it leaves behind.
use etkin_link.Base.{
  ℕ, ◌+◌, ◌≡◌, ◌≤◌, ◌<◌, Bool, true, false, List, [], ◌∷◌, Option, none, some, length, All,
}
use etkin_link.Text.{Str, to_lower_case}
use etkin_link.Http.{Request}
use etkin_link.WorkerAuth.{Crypto, WorkerAuthorization}
use etkin_link.WorkerAuth.Signing.{IsGenuine}
use etkin_link.DeleteAccount.State.{Phase, auth_deleted, storage_deleting, completed, DeletionState}
use etkin_link.DeleteAccount.Handler.Safety.{IsOwned}
use etkin_link.DeleteAccount.Worker.{
  worker_scope, ContinuationClaim, Outcome, claim_completed, claim_resumable, claim_failed, Call,
  clock, consume_nonce, claim_continuations, get_request, advance_request, list_storage_paths,
  remove_storage_paths, release_continuation, Tally, Answer, error, drained, Response, Exit, answer,
  ran_out,
}

pub record Progress : Type 0 where
  pub admitted : Bool  -- the nonce was fresh
  pub queue : List ContinuationClaim  -- the claims that are not released yet
  pub stored : Option DeletionState  -- the row that the store last gave for the current claim
  pub page : Option (List Str)  -- the paths that were last listed, until they are removed

abbrev pub fresh : Progress
fresh = record { admitted = false; queue = []; stored = none; page = none }

abbrev pub rest_of : List ContinuationClaim → List ContinuationClaim
rest_of [] = []
rest_of (claim ∷ rest) = rest

abbrev pub observe : Progress → Call → Progress
observe g (clock _) = g
observe g (consume_nonce _ _ (some accepted)) = record g { admitted = accepted }
observe g (consume_nonce _ _ none) = g
observe g (claim_continuations _ (some claims)) = record g { queue = claims }
observe g (claim_continuations _ none) = g
observe g (get_request _ (some (some state))) = record g { stored = some state }
observe g (get_request _ _) = g
observe g (advance_request _ _ _ _ (some state)) = record g { stored = some state }
observe g (advance_request _ _ _ _ none) = g
observe g (list_storage_paths _ _ _ _ reply) = record g { page = reply }
observe g (remove_storage_paths _ _) = record g { page = none }
observe g (release_continuation _ _ _ _) = record g {
  queue = rest_of g.queue;
  stored = none;
  page = none;
}

abbrev pub IsCurrent : Progress → ContinuationClaim → Type 0
IsCurrent g claim = (rest : List ContinuationClaim) × (g.queue ≡ claim ∷ rest)

-- The row last read is in this phase.
abbrev pub IsStored : Progress → Phase → Type 0
IsStored g phase = (state : DeletionState) × (g.stored ≡ some state) × (state.phase ≡ phase)

-- Storage begins for the user of the claim; completion comes only after an empty page.
abbrev pub MayMove : Progress → ContinuationClaim → DeletionState → Phase → Type 0
MayMove g claim state storage_deleting =
    (state.phase ≡ auth_deleted) × (to_lower_case state.user_id ≡ claim.user_id)
MayMove g claim state completed = (state.phase ≡ storage_deleting) × (g.page ≡ some [])
MayMove g claim state _ = ⊥

-- The path has a name after the folder.
abbrev pub IsNamed : Str → Str → Type 0
IsNamed user_id path = IsOwned user_id path × (length user_id + 1 < length path)

abbrev pub IsSettled : Progress → Outcome → Type 0
IsSettled g claim_completed = IsStored g completed
IsSettled g claim_resumable = IsStored g storage_deleting
IsSettled g claim_failed = Unit

abbrev pub Allowed : (crypto : Crypto) (request : Request) (secret : Str) → Progress → Call → Type 0
Allowed crypto request secret g (clock _) = Unit
Allowed crypto request secret g (consume_nonce nonce timestamp _) =
    (raw_body : Str) × (now : ℕ) × (a : WorkerAuthorization) × IsGenuine crypto request secret
      worker_scope raw_body now a
    × (nonce ≡ a.nonce)
    × (timestamp ≡ a.timestamp)
Allowed crypto request secret g (claim_continuations size _) =
    (g.admitted ≡ true) × (1 ≤ size) × (size ≤ 10)
Allowed crypto request secret g (get_request _ _) = (claim : ContinuationClaim) × IsCurrent g claim
Allowed crypto request secret g (advance_request user_id id expected next _) =
    (claim : ContinuationClaim) × (state : DeletionState) × IsCurrent g claim
    × (g.stored ≡ some state)
    × (user_id ≡ state.user_id)
    × (id ≡ state.client_request_id)
    × (expected ≡ state.phase)
    × MayMove g claim state next
Allowed crypto request secret g (list_storage_paths user_id id _ size _) =
    (claim : ContinuationClaim) × IsCurrent g claim
    × (user_id ≡ claim.user_id)
    × IsStored g storage_deleting
    × (size ≡ 100)
Allowed crypto request secret g (remove_storage_paths paths _) =
    (claim : ContinuationClaim) × IsCurrent g claim
    × (g.page ≡ some paths)
    × (length paths ≤ 100)
    × All (IsNamed claim.user_id) paths
    × IsStored g storage_deleting
Allowed crypto request secret g (release_continuation claim outcome _ _) =
    IsCurrent g claim × IsSettled g outcome

-- A batch that is reported as drained has released every claim, and counts each of them once.
abbrev pub Counted : ℕ → Tally → Type 0
Counted n tally = (tally.completed + tally.resumable + tally.failed ≡ n) × (tally.terminal ≤ n)

abbrev pub Drained : Response → Progress → Type 0
Drained response g = Claimed response.body
  where
    Claimed : Answer → Type 0
    Claimed (error _) = Unit
    Claimed (drained claimed tally) =
        (g.queue ≡ []) × Counted claimed tally × (response.status ≡ 200)

abbrev pub Stopped : Exit → Progress → Type 0
Stopped (answer response) g = Drained response g
Stopped ran_out g = ⊥
