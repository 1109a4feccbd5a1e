-- ===== src/DeleteAccount/Worker/Claims.antt =====
-- One claim of the deletion worker, against the safety protocol.
use etkin_link.Base.{
  ℕ, zero, suc, ◌+◌, ◌≤◌, ◌≡◌, refl, ◌∙◌, Bool, true, false, not, List, [], ◌∷◌, Option, none, some,
  ltb, leb, length, take, any, All, last_or, arith, ◌⊎◌, inl, inr,
}
use etkin_link.Text.{Str, to_lower_case}
use etkin_link.Text.Laws.{str_eq→eq}
use etkin_link.Http.{Request}
use etkin_link.WorkerAuth.{Crypto}
use etkin_link.Effect.{Act}
use etkin_link.Effect.Protocol.{
  Triple, Triple-pure, Triple-throw, Triple-throw_none, Triple-call, Triple-if, Triple-weaken,
  Triple-bind, Triple-throw_if, Triple-given,
}
use etkin_link.DeleteAccount.State.{
  Phase, auth_deleted, storage_deleting, completed, phase_eq, phase_eq→eq, DeletionState,
}
use etkin_link.DeleteAccount.Worker.{
  ContinuationClaim, Call, get_request, advance_request, Dependencies, Stop, continuation_error,
  out_of_fuel, storage_path_is_owned, owned_state, current_state, recover_phase, advance_phase,
  list_claim_page, remove_pages, start_storage, finish_claim, clear_storage, continue_claim,
  finish_or_start, process_claim,
}
use etkin_link.DeleteAccount.Worker.Safety.{Progress, observe, Allowed, MayMove, IsNamed, IsSettled}

storage_path_is_owned→IsNamed :
    (user_id path : Str) → storage_path_is_owned path user_id ≡ true → IsNamed user_id path
unfolding storage_path_is_owned
storage_path_is_owned→IsNamed user_id path h =
    let same = str_eq→eq (to_lower_case (take (length user_id) path)) user_id in
    ((ground arith, ground (arith, same)), ground arith)

All-owned :
    (user_id : Str) (paths : List Str)
    → any (λ path. not (storage_path_is_owned path user_id)) paths ≡ false
    → All (IsNamed user_id) paths
All-owned user_id [] h = tt
All-owned user_id (path ∷ paths) h = (
  storage_path_is_owned→IsNamed user_id path (ground arith),
  All-owned user_id paths (ground arith),
)

-- A claim that fails leaves the queue as it was.
abbrev pub Missed : List ContinuationClaim → Stop → Progress → Type 0
Missed queue (continuation_error _) g = g.queue ≡ queue
Missed queue out_of_fuel g = ⊥

pub true_of_not : (b : Bool) → not b ≡ false → b ≡ true
true_of_not true h = refl
true_of_not false h = cc

module _ {W : Type 0} (deps : Dependencies W) (crypto : Crypto) (request : Request) (secret : Str)
    (claim : ContinuationClaim) (rest : List ContinuationClaim) where
  abbrev Rule :
      {A : Type 0} → (Progress → Type 0) → (A → Progress → Type 0) → Act W Call Stop A → Type 0
  Rule Pre Post m =
      Triple (Allowed crypto request secret) observe Pre Post (Missed (claim ∷ rest)) m

  abbrev Waits : Progress → Type 0
  Waits g = g.queue ≡ claim ∷ rest

  abbrev Holds : DeletionState → Progress → Type 0
  Holds state g = (g.queue ≡ claim ∷ rest) × (g.stored ≡ some state)

  owned_state-Rule :
      (user_id : Str) (found : Option DeletionState)
      → Rule
          (λ g. Waits g × ((s : DeletionState) → found ≡ some s → g.stored ≡ some s))
          (λ s g. Holds s g × (to_lower_case s.user_id ≡ user_id))
          (owned_state deps user_id found)
  unfolding owned_state
  owned_state-Rule user_id none = Triple-throw _ (λ g p. p.0)
  owned_state-Rule user_id (some state) =
      Triple-bind _ _ _ (Triple-throw_if _ _ (λ g p h. p.0)) (λ _.
        Triple-pure state (λ g p. ((p.0.0, p.0.1 state refl), str_eq→eq _ _ (true_of_not _ p.1))))

  current_state-Rule :
      (user_id id : Str)
      → Rule Waits
          (λ s g. Holds s g × (to_lower_case s.user_id ≡ user_id))
          (current_state deps user_id id)
  unfolding current_state
  current_state-Rule user_id id =
      Triple-bind
        (λ reply g. Waits g × ((s : DeletionState) → reply ≡ some (some s) → g.stored ≡ some s)) _ _
        (Triple-call (λ _. Unit) _ _ (λ w. tt)
          (λ reply g r p. ((claim, (rest, p)), read reply g p)))
        (λ reply.
          Triple-bind _ _ _
            (Triple-throw_none _ reply (λ g p h. p.0)
              (λ found g p h. (p.0, λ s e. p.1 s (rw (h, e) refl))))
            (λ found. owned_state-Rule user_id found))
    where
      read :
          (reply : Option (Option DeletionState)) (g : Progress)
          → Waits g
          → Waits (observe g (get_request id reply))
            × ((s : DeletionState)
                → reply ≡ some (some s)
                → (observe g (get_request id reply)).stored ≡ some s)
      read none g p = (p, λ s e. cc)
      read (some none) g p = (p, λ s e. cc)
      read (some (some state)) g p = (p, λ s e. cc)

  recover_phase-Rule :
      (state : DeletionState) (next : Phase) (moved : Option DeletionState)
      → Rule
          (λ g. Waits g × ((s : DeletionState) → moved ≡ some s → g.stored ≡ some s))
          Holds
          (recover_phase deps state next moved)
  unfolding recover_phase
  recover_phase-Rule state next (some moved) = Triple-pure moved (λ g p. (p.0, p.1 moved refl))
  recover_phase-Rule state next none =
      Triple-bind Holds _ _
        (Triple-weaken _ _ _ _ (current_state-Rule _ _) (λ g p. p.0) (λ s g p. p.0) (λ e g p. p))
        (λ s.
          Triple-bind _ _ _ (Triple-throw_if _ _ (λ g p h. p.0)) (λ _. Triple-pure s (λ g p. p.0)))

  advance_phase-Rule :
      (state : DeletionState) (next : Phase)
      → Rule (λ g. Holds state g × MayMove g claim state next) Holds (advance_phase deps state next)
  unfolding advance_phase
  advance_phase-Rule state next =
      Triple-bind (λ moved g. Waits g × ((s : DeletionState) → moved ≡ some s → g.stored ≡ some s))
        _ _
        (Triple-call (λ _. Unit) _ _ (λ w. tt)
          (λ moved g r p.
            ((claim, state, (rest, p.0.0), p.0.1, refl, refl, refl, p.1), noted moved g p.0.0)))
        (λ moved. recover_phase-Rule state next moved)
    where
      noted :
          (moved : Option DeletionState) (g : Progress)
          → Waits g
          → Waits (
              observe g
                (advance_request state.user_id state.client_request_id state.phase next moved))
            × ((s : DeletionState)
                → moved ≡ some s
                → (observe g (
                    advance_request state.user_id state.client_request_id state.phase next
                      moved)).stored
                  ≡ some s)
      noted none g p = (p, λ s e. cc)
      noted (some s') g p = (p, λ s e. cc)

  module _ (state : DeletionState) (at_storage : state.phase ≡ storage_deleting) where
    abbrev Listed : List Str → Progress → Type 0
    Listed paths g =
        Holds state g
        × (g.page ≡ some paths)
        × (length paths ≤ 100)
        × All (IsNamed claim.user_id) paths

    list_claim_page-Rule :
        (cursor : Option Str) → Rule (Holds state) Listed (list_claim_page deps claim cursor)
    unfolding list_claim_page
    list_claim_page-Rule cursor =
        Triple-bind (λ reply g. Holds state g × (g.page ≡ reply)) _ _
          (Triple-call (λ _. Unit) _ _ (λ w. tt)
            (λ reply g r p.
              ((claim, (rest, p.0), refl, (state, p.1, at_storage), refl), (p, refl))))
          (λ reply.
            Triple-bind (λ paths g. Holds state g × (g.page ≡ some paths)) _ _
              (Triple-throw_none _ reply (λ g p h. p.0.0) (λ paths g p h. (p.0, p.1 ∙ h)))
              (λ paths. Triple-bind _ _ _ (Triple-throw_if _ _ (λ g p h. p.0.0)) (λ _.
                Triple-pure paths (λ g p. (
                  p.0.0,
                  p.0.1,
                  ground (arith, p.1),
                  All-owned claim.user_id paths (ground (arith, p.1)),
                )))))

    abbrev Cleared : ℕ → Progress → Type 0
    Cleared removed_count g = Holds state g × ((500 ≤ removed_count) ⊎ (g.page ≡ some []))

    remove_pages-Rule :
        (fuel : ℕ) (cursor : Option Str) (removed_count : ℕ)
        → 500 ≤ fuel + removed_count
        → Rule (Holds state) Cleared (remove_pages deps fuel claim cursor removed_count)
    unfolding remove_pages
    remove_pages-Rule zero cursor removed_count enough =
        Triple-if (ltb removed_count 500) _ _ (λ few. absurd (ground arith))
          (λ many. Triple-pure removed_count (λ g p. (p, inl (ground arith))))
    remove_pages-Rule (suc fuel) cursor removed_count enough =
        Triple-if (ltb removed_count 500) _ _
          (λ few. Triple-bind Listed _ _ (list_claim_page-Rule cursor) (elim [
            | [] ↦ Triple-pure removed_count (λ g p. (p.0, inr p.1))
            | path ∷ more ↦
                Triple-bind (λ _ g. Holds state g) _ _
                  (Triple-call (λ _. Unit) _ _ (λ w. tt)
                    (λ removed g r p.
                      ((claim, (rest, p.0.0), p.1, p.2, p.3, (state, p.0.1, at_storage)), p.0)))
                  (λ removed.
                    Triple-bind (λ _ g. Holds state g) _ _
                      (Triple-weaken _ _ _ _ (Triple-throw_if _ _ (λ g p h. p.0)) (λ g p. p)
                        (λ _ g p. p.0) (λ e g p. p))
                      (λ _.
                        remove_pages-Rule fuel (some (last_or more path))
                          (removed_count + length (path ∷ more)) (omega (arith, enough))))
          ]))
          (λ many. Triple-pure removed_count (λ g p. (p, inl (ground arith))))

    finish_claim-Rule :
        (removed_count : ℕ)
        → Rule
            (Cleared removed_count)
            (λ outcome g. Waits g × IsSettled g outcome)
            (finish_claim deps state removed_count)
    unfolding finish_claim
    finish_claim-Rule removed_count =
        Triple-if (leb 500 removed_count) _ _
          (λ many. Triple-pure _ (λ g p. (p.0.0, (state, p.0.1, at_storage))))
          (λ few.
            Triple-bind Holds _ _
              (Triple-weaken _ _ _ _ (advance_phase-Rule state completed)
                (λ g p. (p.0, (at_storage, emptied g p few))) (λ s g p. p) (λ e g p. p))
              (λ done. Triple-bind _ _ _ (Triple-throw_if _ _ (λ g p h. p.0)) (λ _.
                Triple-pure _
                  (λ g p. (p.0.0, (done, p.0.1, phase_eq→eq _ _ (true_of_not _ p.1)))))))
      where
        emptied :
            (g : Progress)
            → Cleared removed_count g
            → leb 500 removed_count ≡ false
            → g.page ≡ some []
        emptied g p few = elim (p.1) [
          | inl many ↦ absurd (ground arith)
          | inr none_left ↦ none_left
        ]

  clear_storage-Rule :
      (state : DeletionState)
      → Rule
          (Holds state)
          (λ outcome g. Waits g × IsSettled g outcome)
          (clear_storage deps claim state)
  unfolding clear_storage
  clear_storage-Rule state = Triple-bind _ _ _ (Triple-throw_if _ _ (λ g p h. p.0)) (λ _.
      Triple-given _ (λ g p.
        let at_storage : state.phase ≡ storage_deleting = phase_eq→eq _ _ (true_of_not _ p.1) in
        Triple-bind (Cleared state at_storage) _ _
          (Triple-weaken _ _ _ _ (remove_pages-Rule state at_storage 500 none 0 (omega arith))
            (λ g p. p.0) (λ n g p. p) (λ e g p. p))
          (λ removed_count. finish_claim-Rule state at_storage removed_count)))

  continue_claim-Rule :
      (state : DeletionState)
      → Rule
          (Holds state)
          (λ outcome g. Waits g × IsSettled g outcome)
          (continue_claim deps claim state)
  unfolding continue_claim
  continue_claim-Rule state =
      Triple-if (phase_eq state.phase completed) _ _
        (λ e. Triple-pure _ (λ g p. (p.0, (state, p.1, phase_eq→eq _ _ e))))
        (λ _. clear_storage-Rule state)

  start_storage-Rule :
      (state : DeletionState)
      → Rule
          (λ g. Holds state g × (to_lower_case state.user_id ≡ claim.user_id))
          Holds
          (start_storage deps state)
  unfolding start_storage
  start_storage-Rule state =
      Triple-if (phase_eq state.phase auth_deleted) _ _
        (λ e.
          Triple-weaken _ _ _ _ (advance_phase-Rule state storage_deleting)
            (λ g p. (p.0, (phase_eq→eq _ _ e, p.1))) (λ s g p. p) (λ e g p. p))
        (λ _. Triple-pure state (λ g p. p.0))

  finish_or_start-Rule :
      (state : DeletionState)
      → Rule
          (λ g. Holds state g × (to_lower_case state.user_id ≡ claim.user_id))
          (λ outcome g. Waits g × IsSettled g outcome)
          (finish_or_start deps claim state)
  unfolding finish_or_start
  finish_or_start-Rule state =
      Triple-if (phase_eq state.phase completed) _ _
        (λ e. Triple-pure _ (λ g p. (p.0.0, (state, p.0.1, phase_eq→eq _ _ e))))
        (λ _. Triple-bind Holds _ _ (start_storage-Rule state) continue_claim-Rule)

  pub process_claim-Triple :
      Rule Waits (λ outcome g. Waits g × IsSettled g outcome) (process_claim deps claim)
  unfolding process_claim
  process_claim-Triple =
      Triple-bind (λ s g. Holds s g × (to_lower_case s.user_id ≡ claim.user_id)) _ _
        (current_state-Rule claim.user_id claim.client_request_id) finish_or_start-Rule
