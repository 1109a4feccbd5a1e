-- ===== src/DeleteAccount/Handler/Stages.antt =====
-- Single stages of the deletion handler, against the safety protocol: reading the stored request, the
-- account, and the phases of the store. The storage loop is in Removal.
use etkin_link.Base.{ℕ, ◌≡◌, refl, ◌∙◌, ap, ◌≤◌, Bool, true, false, not, Option, none, some, arith}
use etkin_link.Int.{ℤ}
use etkin_link.Text.{Str, to_lower_case}
use etkin_link.Text.Laws.{str_eq→eq}
use etkin_link.Http.{Platform}
use etkin_link.Effect.{Act, throw, ◌>>◌}
use etkin_link.Effect.Protocol.{
  Triple, Triple-pure, Triple-throw, Triple-throw_none, Triple-call, Triple-weaken, Triple-bind,
  Triple-throw_if,
}
use etkin_link.DeleteAccount.State.{
  Phase, phase_rank, DeletionState, Claims, AuthState, Code, Call, get_request, advance_request,
  Dependencies, Exit,
}
use etkin_link.DeleteAccount.Request.{recent_login_is_valid}
use etkin_link.DeleteAccount.Handler.{
  recovery, record_failure, recover, advance_with_concurrent_recovery, read_auth_state,
  require_recent_login, error_response,
}
use etkin_link.DeleteAccount.Handler.Safety.{
  Knowledge, observe, Allowed, Stopped, MayAdvance, IsRecent,
}

-- The store gives back the row that it moved, in the phase that was asked for.
abbrev pub MovesRow : {W : Type 0} → Dependencies W → Type 0
MovesRow {W} deps =
    (u r : Str) (p q : Phase) (e : Option Code) (w : W) (s : DeletionState)
    → (deps.advance u r p q e w).0 ≡ some s
    → (s.user_id ≡ u) × (s.phase ≡ q)

pub eq_true_of_not : (b : Bool) → not b ≡ false → b ≡ true
eq_true_of_not true h = refl
eq_true_of_not false h = cc

-- What the handler knows of the request that it holds: its owner is the token's user, its phase is
-- the one that the store last gave, and K holds of the last path that was removed.
abbrev pub Holds : Claims → (Str → Type 0) → DeletionState → Knowledge → Type 0
Holds c K state g =
    (g.claims ≡ some c)
    × (to_lower_case state.user_id ≡ to_lower_case c.sub)
    × (g.stored ≡ some state.phase)
    × K g.cursor

-- A state that was recovered is the one that was read, of the same user, and far enough.
pub recovery_lem :
    (state : DeletionState) (next : Phase) (reply : Option (Option DeletionState))
    (s : DeletionState)
    → recovery state next reply ≡ some s
    → (reply ≡ some (some s)) × (s.user_id ≡ state.user_id) × (phase_rank next ≤ phase_rank s.phase)
unfolding recovery
recovery_lem state next none s h = cc
recovery_lem state next (some none) s h = cc
recovery_lem state next (some (some current)) s h =
    ground (arith, str_eq→eq current.user_id state.user_id)

abbrev pub Tri :
    {W A : Type 0}
    → Platform
    → (Knowledge → Type 0)
    → (A → Knowledge → Type 0)
    → Act W Call Exit A
    → Type 0
Tri platform Pre Post m = Triple (Allowed platform) observe Pre Post Stopped m

module _ {W : Type 0} (platform : Platform) (deps : Dependencies W) (c : Claims)
    (K : Str → Type 0) where
  pub record_failure-Triple :
      (state : DeletionState) (code : Code)
      → Tri platform
          (λ g. Holds c K state g × MayAdvance g state.phase state.phase)
          (λ _ _. Unit)
          (record_failure platform deps state code)
  unfolding record_failure
  record_failure-Triple state code =
      Triple-call (λ _. Unit) _ _ (λ w. tt) (λ a g _ p. (((c, p.0.0, p.0.1), p.0.2, p.1), tt))

  -- A failure is recorded, and the handler ends with its code.
  pub fail-Triple :
      {A : Type 0} {Post : A → Knowledge → Type 0} (state : DeletionState) (status : ℕ)
      (code : Code)
      → Tri platform
          (λ g. Holds c K state g × MayAdvance g state.phase state.phase)
          Post
          (record_failure platform deps state code >> throw (error_response status code))
  fail-Triple state status code =
      Triple-bind (λ _ _. Unit) _ _ (record_failure-Triple state code)
        (λ _. Triple-throw _ (λ g _. tt))

  -- The state of the knowledge after a move, or after a move that failed.
  abbrev Moved : DeletionState → Phase → Option DeletionState → Knowledge → Type 0
  Moved state next moved g =
      (moved ≡ none → Holds c K state g)
      × ((s : DeletionState)
          → moved ≡ some s
          → Holds c K s g × (phase_rank next ≤ phase_rank s.phase))

  move_seen :
      (state : DeletionState) (next : Phase) (moved : Option DeletionState) (g : Knowledge)
      → ((s : DeletionState) → moved ≡ some s → (s.user_id ≡ state.user_id) × (s.phase ≡ next))
      → Holds c K state g
      → Moved state next moved (
          observe g
            (advance_request state.user_id state.client_request_id state.phase next none moved))
  move_seen state next none g good h = (λ _. h, λ s e. cc)
  move_seen state next (some m) g good h =
      let (owner, phase) = good m refl in
      (
        λ e. cc,
        λ s e. ((h.0, ground (arith, h.1, owner), ground arith, h.3), ground (arith, phase)),
      )

  -- The reply to a reading of the row, as far as it decides the recovery.
  abbrev Read : DeletionState → Option (Option DeletionState) → Knowledge → Type 0
  Read state reply g =
      (g.claims ≡ some c)
      × (to_lower_case state.user_id ≡ to_lower_case c.sub)
      × K g.cursor
      × ((s : DeletionState) → reply ≡ some (some s) → g.stored ≡ some s.phase)

  stored_after :
      (state : DeletionState) (r : Str) (reply : Option (Option DeletionState)) (g : Knowledge)
      → Holds c K state g
      → Read state reply (observe g (get_request r reply))
  stored_after state r none g h = (h.0, h.1, h.3, λ s e. cc)
  stored_after state r (some none) g h = (h.0, h.1, h.3, λ s e. cc)
  stored_after state r (some (some row)) g h = (h.0, h.1, h.3, λ s e. ground arith)

  recover-Triple :
      (state : DeletionState) (next : Phase) (moved : Option DeletionState)
      → Tri platform
          (Moved state next moved)
          (λ m g.
            (s : DeletionState)
            → m ≡ some s
            → Holds c K s g × (phase_rank next ≤ phase_rank s.phase))
          (recover platform deps state next moved)
  unfolding recover
  recover-Triple state next (some m) = Triple-pure _ (λ g p. p.1)
  recover-Triple state next none =
      Triple-bind (Read state) _ _
        (Triple-call (λ _. Unit) _ _ (λ w. tt)
          (λ reply g _ p. (tt, stored_after state state.client_request_id reply g (p.0 refl))))
        (λ reply. Triple-pure _ (λ g p s e.
          let (read, owner, far) = recovery_lem state next reply s e in
          ((p.0, ap to_lower_case owner ∙ p.1, p.3 s read, p.2), far)))

  -- Moving to the next phase, with the recovery from a concurrent move.
  pub advance-Triple :
      MovesRow deps
      → (state : DeletionState) (next : Phase)
      → Tri platform
          (λ g. Holds c K state g × MayAdvance g state.phase next)
          (λ moved g.
            (s : DeletionState)
            → moved ≡ some s
            → Holds c K s g × (phase_rank next ≤ phase_rank s.phase))
          (advance_with_concurrent_recovery platform deps state next)
  unfolding advance_with_concurrent_recovery
  advance-Triple moves state next =
      Triple-bind (Moved state next) _ _
        (Triple-call
          (λ moved.
            (s : DeletionState) → moved ≡ some s → (s.user_id ≡ state.user_id) × (s.phase ≡ next))
          _ _ (λ w s. moves _ _ _ _ _ w s)
          (λ moved g good p.
            (((c, p.0.0, p.0.1), p.0.2, p.1), move_seen state next moved g good p.0)))
        (recover-Triple state next)

module _ {W : Type 0} (platform : Platform) (deps : Dependencies W) (c : Claims)
    (P : Knowledge → Type 0) (knows : (g : Knowledge) → P g → g.claims ≡ some c)
    (stable : (g : Knowledge) (t : Option ℤ) (a : Option AuthState)
      → P g
      → P (record g { now = t; auth = a })) where
  pub read_auth_state-Triple :
      Tri platform P
        (λ a g. P g × (g.auth ≡ some a))
        (read_auth_state platform deps (to_lower_case c.sub))
  unfolding read_auth_state
  read_auth_state-Triple =
      Triple-bind (λ reply g. P g × (g.auth ≡ reply)) _ _
        (Triple-call (λ _. Unit) _ _ (λ w. tt)
          (λ a g _ p. ((c, knows g p, refl), (stable g g.now a p, refl))))
        (λ reply. Triple-throw_none _ reply (λ g p e. tt) (λ a g p e. (p.0, p.1 ∙ e)))

  pub require_recent_login-Triple :
      (a : AuthState)
      → a.exists ≡ true
      → Tri platform
          (λ g. P g × (g.auth ≡ some a))
          (λ _ g. P g × (g.auth ≡ some a) × IsRecent platform g)
          (require_recent_login platform deps c a)
  unfolding require_recent_login
  require_recent_login-Triple a there =
      Triple-bind (λ t g. P g × (g.auth ≡ some a) × (g.now ≡ some t)) _ _
        (Triple-call (λ _. Unit) _ _ (λ w. tt)
          (λ t g _ p. (tt, (stable g (some t) g.auth p.0, p.1, refl))))
        (λ t.
          Triple-weaken _
            (λ _ g.
              (P g × (g.auth ≡ some a) × (g.now ≡ some t))
              × (not (recent_login_is_valid platform c a.last_sign_in_at t) ≡ false))
            Stopped _ (Triple-throw_if _ _ (λ g p e. tt)) (λ g p. p)
            (λ _ g p.
              (p.0.0, p.0.1, (c, a, t, knows g p.0.0, p.0.1, there, p.0.2, eq_true_of_not _ p.1)))
            (λ e g p. p))
