-- ===== src/DeleteAccount/Handler/Phases.antt =====
-- The stages of the handler up to the storage, against the safety protocol: loading or creating the
-- request, deleting the account, and moving to the storage phase.
use etkin_link.Base.{
  ◌≡◌, refl, ◌∙◌, ap, true, false, not, Option, none, some, arith, inl, inr, Bool-cases,
}
use etkin_link.Text.{Str, str_eq, to_lower_case}
use etkin_link.Text.Laws.{str_eq→eq}
use etkin_link.Http.{Platform}
use etkin_link.Effect.{pure, call, throw_none, ◌>>=◌, ◌>>◌}
use etkin_link.Effect.Protocol.{
  Triple-pure, Triple-throw_none, Triple-call, Triple-if, Triple-weaken, Triple-bind,
  Triple-throw_if,
}
use etkin_link.DeleteAccount.State
use etkin_link.DeleteAccount.State.{
  Phase, requested, auth_deleted, storage_deleting, completed, phase_rank, phase_eq, phase_eq→eq,
  DeletionState, Claims, AuthState, Code, Call, Dependencies, Exit, answer,
}
use etkin_link.DeleteAccount.Handler.{
  is_foreign, reject_foreign, finish_if_completed, begin_deletion, continue_or_begin, load_request,
  known_auth_state, confirm_deleted, delete_auth_user, auth_stage, storage_stage, error_response,
}
use etkin_link.DeleteAccount.Handler.Safety.{
  Knowledge, observe, Stopped, MayAdvance, IsRecent, IsGone,
}
use etkin_link.DeleteAccount.Handler.Stages.{
  MovesRow, Holds, Tri, eq_true_of_not, fail-Triple, advance-Triple, read_auth_state-Triple,
  require_recent_login-Triple,
}

-- A loaded request, with the account where it has been read.
abbrev pub Loaded : Claims → (Str → Type 0) → DeletionState × Option AuthState → Knowledge → Type 0
Loaded c K (state, known) g =
    Holds c K state g × ((a : AuthState) → known ≡ some a → g.auth ≡ some a)

-- What is known before a request is loaded.
abbrev pub Knows : Claims → (Str → Type 0) → Knowledge → Type 0
Knows c K g = (g.claims ≡ some c) × K g.cursor

module _ {W : Type 0} (platform : Platform) (deps : Dependencies W) (c : Claims)
    (K : Str → Type 0) where
  -- Past this check the request is the token user's own.
  reject_foreign-Triple :
      (P : Knowledge → Type 0) (state : DeletionState)
      → Tri platform P
          (λ _ g. P g × (to_lower_case state.user_id ≡ to_lower_case c.sub))
          (reject_foreign platform deps (to_lower_case c.sub) state)
  unfolding reject_foreign is_foreign
  reject_foreign-Triple P state =
      Triple-weaken P
        (λ _ g. P g × (not (str_eq (to_lower_case state.user_id) (to_lower_case c.sub)) ≡ false))
        Stopped _ (Triple-throw_if _ _ (λ g p e. tt)) (λ g p. p)
        (λ _ g p. (p.0, str_eq→eq _ _ (eq_true_of_not _ p.1))) (λ e g p. p)

  -- The early answer for a request that is already completed is true of the store.
  finish_if_completed-Triple :
      (P : Knowledge → Type 0) (state : DeletionState)
      → ((g : Knowledge) → P g → g.stored ≡ some state.phase)
      → Tri platform P
          (λ _ g. P g × (phase_eq state.phase completed ≡ false))
          (finish_if_completed platform deps state)
  unfolding finish_if_completed
  finish_if_completed-Triple P state stored =
      Triple-throw_if _ _ (λ g p e. (stored g p ∙ ap some (phase_eq→eq _ _ e), refl))

  begun_seen :
      (a : AuthState) (u r : Str) (reply : Option DeletionState) (g : Knowledge)
      → Knows c K g × (g.auth ≡ some a)
      → (s : DeletionState) → reply ≡ some s
      → Knows c K (observe g (State.begin_request u r reply))
        × ((observe g (State.begin_request u r reply)).auth ≡ some a)
        × ((observe g (State.begin_request u r reply)).stored ≡ some s.phase)
  begun_seen a u r none g p s e = cc
  begun_seen a u r (some m) g p s e = (p.0, p.1, ground arith)

  -- The part of a first request after the account has been found and the login is recent.
  begin_row-Triple :
      (a : AuthState) (r : Str)
      → Tri platform
          (λ g. Knows c K g × (g.auth ≡ some a) × IsRecent platform g)
          (Loaded c K)
          (do
            begun ←
                call
                  (deps.begin (to_lower_case c.sub) r)
                  (State.begin_request (to_lower_case c.sub) r)
            state ← throw_none (error_response 502 State.deletion_state_create_failed) begun
            reject_foreign platform deps (to_lower_case c.sub) state
            finish_if_completed platform deps state
            pure (state, some a))
  begin_row-Triple a r =
      Triple-bind
        (λ begun g.
          (s : DeletionState)
          → begun ≡ some s
          → Knows c K g × (g.auth ≡ some a) × (g.stored ≡ some s.phase))
        _ _
        (Triple-call (λ _. Unit) _ _ (λ w. tt)
          (λ begun g _ p.
            (((c, p.0.0, refl), p.2), begun_seen a (to_lower_case c.sub) r begun g (p.0, p.1))))
        λ begun.
          Triple-bind (λ s g. Knows c K g × (g.auth ≡ some a) × (g.stored ≡ some s.phase)) _ _
            (Triple-throw_none _ begun (λ g p e. tt) (λ s g p e. p s e))
            λ s. Triple-bind _ _ _ (reject_foreign-Triple _ s) λ _.
              Triple-bind _ _ _ (finish_if_completed-Triple _ s (λ g p. p.0.2)) λ _.
                Triple-pure _ (λ g p. ((p.0.0.0.0, p.0.1, p.0.0.2, p.0.0.0.1), λ a' e. p.0.0.1 ∙ e))

  begin_deletion-Triple :
      (r : Str)
      → Tri platform
          (Knows c K)
          (Loaded c K)
          (begin_deletion platform deps c (to_lower_case c.sub) r)
  unfolding begin_deletion
  begin_deletion-Triple r =
      Triple-bind (λ a g. Knows c K g × (g.auth ≡ some a)) _ _
        (read_auth_state-Triple platform deps c (Knows c K) (λ g p. p.0) (λ g t a p. p))
        λ a. elim (Bool-cases a.exists) [
          | inl there ↦
              Triple-bind (λ _ g. Knows c K g × (g.auth ≡ some a)) _ _
                (Triple-weaken _ _ Stopped _ (Triple-throw_if _ _ (λ g p e. tt)) (λ g p. p)
                  (λ _ g p. p.0) (λ e g p. p))
                λ _.
                  Triple-bind _ _ _
                    (require_recent_login-Triple platform deps c (Knows c K) (λ g p. p.0)
                      (λ g t a p. p) a there)
                    λ _. begin_row-Triple a r
          | inr absent ↦
              Triple-bind (λ _ _. ⊥) _ _
                (Triple-weaken _ _ Stopped _ (Triple-throw_if _ _ (λ g p e. tt)) (λ g p. p)
                  (λ _ g p. let e : not false ≡ false = rw absent at (p.1) in cc) (λ e g p. p))
                λ _. record { at = λ w g p. absurd p }
        ]

  continue_or_begin-Triple :
      (r : Str) (found : Option DeletionState)
      → Tri platform
          (λ g. Knows c K g × ((s : DeletionState) → found ≡ some s → g.stored ≡ some s.phase))
          (Loaded c K)
          (continue_or_begin platform deps c (to_lower_case c.sub) r found)
  unfolding continue_or_begin
  continue_or_begin-Triple r none =
      Triple-weaken _ _ Stopped _ (begin_deletion-Triple r) (λ g p. p.0) (λ l g p. p) (λ e g p. p)
  continue_or_begin-Triple r (some s) = Triple-bind _ _ _ (reject_foreign-Triple _ s) λ _.
      Triple-bind _ _ _ (finish_if_completed-Triple _ s (λ g p. p.0.1 s refl))
        λ _. Triple-pure _ (λ g p. ((p.0.0.0.0, p.0.1, p.0.0.1 s refl, p.0.0.0.1), λ a e. cc))

  stored_seen :
      (r : Str) (reply : Option (Option DeletionState)) (g : Knowledge)
      → Knows c K g
      → Knows c K (observe g (State.get_request r reply))
        × ((s : DeletionState)
            → reply ≡ some (some s)
            → (observe g (State.get_request r reply)).stored ≡ some s.phase)
  stored_seen r none g h = (h, λ s e. cc)
  stored_seen r (some none) g h = (h, λ s e. cc)
  stored_seen r (some (some row)) g h = (h, λ s e. ground arith)

  pub load_request-Triple :
      (r : Str)
      → Tri platform (Knows c K) (Loaded c K) (load_request platform deps c (to_lower_case c.sub) r)
  unfolding load_request
  load_request-Triple r =
      Triple-bind
        (λ reply g.
          Knows c K g × ((s : DeletionState) → reply ≡ some (some s) → g.stored ≡ some s.phase))
        _ _ (Triple-call (λ _. Unit) _ _ (λ w. tt) (λ reply g _ p. (tt, stored_seen r reply g p)))
        λ reply.
          Triple-bind
            (λ found g.
              Knows c K g × ((s : DeletionState) → found ≡ some s → g.stored ≡ some s.phase))
            _ _
            (Triple-throw_none _ reply (λ g p e. tt)
              (λ found g p e. (p.0, λ s e'. p.1 s (e ∙ ap some e'))))
            (continue_or_begin-Triple r)

  known_auth_state-Triple :
      (state : DeletionState) (known : Option AuthState)
      → Tri platform
          (Loaded c K (state, known))
          (λ a g. Holds c K state g × (g.auth ≡ some a))
          (known_auth_state platform deps (to_lower_case c.sub) known)
  unfolding known_auth_state
  known_auth_state-Triple state none =
      Triple-weaken _ _ Stopped _
        (read_auth_state-Triple platform deps c (Holds c K state) (λ g p. p.0) (λ g t a p. p))
        (λ g p. p.0) (λ a g p. p) (λ e g p. p)
  known_auth_state-Triple state (some a) = Triple-pure a (λ g p. (p.0, p.1 a refl))

  -- A request that is in its first phase or in the storage phase may record a failure.
  may_record :
      (state : DeletionState) (g : Knowledge)
      → state.phase ≡ requested
      → MayAdvance g state.phase state.phase
  may_record state g e = rw e tt

  confirm_deleted-Triple :
      (state : DeletionState) (reply : Option AuthState)
      → state.phase ≡ requested
      → Tri platform
          (λ g. Holds c K state g × (g.auth ≡ reply))
          (λ _ g. Holds c K state g × IsGone g)
          (confirm_deleted platform deps state reply)
  unfolding confirm_deleted
  confirm_deleted-Triple state none e =
      Triple-weaken _ _ Stopped _ (fail-Triple platform deps c K state _ _)
        (λ g p. (p.0, may_record state g e)) (λ a g p. p) (λ x g p. p)
  confirm_deleted-Triple state (some a) e =
      Triple-if a.exists _ _
        (λ there.
          Triple-weaken _ _ Stopped _ (fail-Triple platform deps c K state _ _)
            (λ g p. (p.0, may_record state g e)) (λ a g p. p) (λ x g p. p))
        (λ absent. Triple-pure _ (λ g p. (p.0, (a, p.1, absent))))

  delete_auth_user-Triple :
      (state : DeletionState) (a : AuthState)
      → state.phase ≡ requested
      → a.exists ≡ true
      → Tri platform
          (λ g. Holds c K state g × (g.auth ≡ some a))
          (λ _ g. Holds c K state g × IsGone g)
          (delete_auth_user platform deps c (to_lower_case c.sub) state a)
  unfolding delete_auth_user
  delete_auth_user-Triple state a e there =
      Triple-bind _ _ _
        (require_recent_login-Triple platform deps c (Holds c K state) (λ g p. p.0) (λ g t a p. p) a
          there)
        λ _.
          Triple-bind (λ _ g. Holds c K state g) _ _
            (Triple-call (λ _. Unit) _ _ (λ w. tt)
              (λ done g _ p. (((c, p.0.0, refl), p.2, p.0.2 ∙ ap some e), p.0)))
            λ _.
              Triple-bind (λ reply g. Holds c K state g × (g.auth ≡ reply)) _ _
                (Triple-call (λ _. Unit) _ _ (λ w. tt) (λ reply g _ p. ((c, p.0, refl), (p, refl))))
                λ reply. confirm_deleted-Triple state reply e

  pub auth_stage-Triple :
      MovesRow deps
      → (state : DeletionState) (known : Option AuthState)
      → Tri platform
          (Loaded c K (state, known))
          (λ s g. Holds c K s g)
          (auth_stage platform deps c (to_lower_case c.sub) (state, known))
  unfolding auth_stage
  auth_stage-Triple moves state known =
      Triple-if _ _ _
        (λ test.
          let e = phase_eq→eq _ _ test in
          Triple-bind _ _ _ (known_auth_state-Triple state known) λ a.
            Triple-bind (λ _ g. Holds c K state g × IsGone g) _ _
              (Triple-if a.exists _ _ (delete_auth_user-Triple state a e)
                (λ absent. Triple-pure _ (λ g p. (p.0, (a, p.1, absent)))))
              λ _.
                Triple-bind _ _ _
                  (Triple-weaken _ _ Stopped _
                    (advance-Triple platform deps c K moves state auth_deleted)
                    (λ g p. (p.0, rw e p.1)) (λ m g p. p) (λ x g p. p))
                  λ moved. Triple-throw_none _ moved (λ g p x. tt) (λ s g p x. (p s x).0))
        (λ _. Triple-pure _ (λ g p. p.0))

  -- After this stage the store has said that the storage phase has begun.
  pub storage_stage-Triple :
      MovesRow deps
      → (state : DeletionState)
      → Tri platform
          (Holds c K state)
          (λ s g. Holds c K s g × (s.phase ≡ storage_deleting))
          (storage_stage platform deps state)
  unfolding storage_stage
  storage_stage-Triple moves state =
      Triple-bind (Holds c K) _ _
        (Triple-if _ _ _
          (λ test.
            let e : state.phase ≡ auth_deleted = phase_eq→eq _ _ test in
            Triple-bind _ _ _
              (Triple-weaken _ _ Stopped _
                (advance-Triple platform deps c K moves state storage_deleting)
                (λ g p. (p, rw e tt)) (λ m g p. p) (λ x g p. p))
              λ moved. Triple-throw_none _ moved (λ g p x. tt) (λ s g p x. (p s x).0))
          (λ _. Triple-pure _ (λ g p. p)))
        λ s. Triple-bind _ _ _ (finish_if_completed-Triple _ s (λ g p. p.2)) λ _.
          Triple-bind _ _ _ (Triple-throw_if _ _ (λ g p e. tt))
            λ _. Triple-pure s (λ g p. (p.0.0, phase_eq→eq _ _ (eq_true_of_not _ p.1)))
