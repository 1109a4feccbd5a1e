-- ===== src/DeleteAccount/Handler/Protocol.antt =====
-- The deletion handler as a whole, against the safety protocol.
use etkin_link.Base.{◌≡◌, refl, ◌∙◌, ap, none, arith, []}
use etkin_link.Text.{Str}
use etkin_link.Json.{Json}
use etkin_link.Http.{Request, Platform}
use etkin_link.Effect.{Result, ok, err}
use etkin_link.Effect.Protocol.{
  Follows, after, Ends, Triple-pure, Triple-throw, Triple-throw_none, Triple-call, Triple-weaken,
  Triple-given, Triple-bind, Triple-throw_if,
}
use etkin_link.DeleteAccount.State.{Claims, Dependencies}
use etkin_link.DeleteAccount.Request.{RequestBodyError}
use etkin_link.DeleteAccount.Handler.{
  body_or_answer, run_deletion, delete_account, max_storage_objects_per_invocation,
}
use etkin_link.DeleteAccount.Handler.Safety.{
  Knowledge, nothing_known, observe, Allowed, Justified, Stopped,
}
use etkin_link.DeleteAccount.Handler.Stages.{MovesRow, Tri}
use etkin_link.DeleteAccount.Handler.Phases.{
  Knows, load_request-Triple, auth_stage-Triple, storage_stage-Triple,
}
use etkin_link.DeleteAccount.Handler.Removal.{remove_loop-Triple, finish_deletion-Triple}

-- No path has been removed yet.
abbrev AtStart : Str → Type 0
AtStart cursor = cursor ≡ []

module _ {W : Type 0} (platform : Platform) (deps : Dependencies W) (moves : MovesRow deps) where
  run_deletion-Triple :
      (c : Claims) (r : Str)
      → Tri platform (Knows c AtStart) Justified (run_deletion platform deps c r)
  unfolding run_deletion
  run_deletion-Triple c r =
      Triple-bind _ _ _ (load_request-Triple platform deps c AtStart r) λ (state, known).
        Triple-bind _ _ _ (auth_stage-Triple platform deps c AtStart moves state known) λ authless.
          Triple-bind _ _ _ (storage_stage-Triple platform deps c AtStart moves authless) λ s.
            Triple-given _ λ _ (_, e).
              Triple-bind _ _ _
                (Triple-weaken _ _ Stopped _
                  (remove_loop-Triple platform deps c s e max_storage_objects_per_invocation r none
                    0 (omega arith))
                  (λ g p. ((p.0.0, p.0.1, p.0.2, tt), p.0.3)) (λ n g p. p) (λ x g p. p))
                (finish_deletion-Triple platform deps c s e moves r)

  body_or_answer-Triple :
      (P : Knowledge → Type 0) (body : Result RequestBodyError Json)
      → Tri platform P (λ _ g. P g) (body_or_answer platform deps body)
  unfolding body_or_answer
  body_or_answer-Triple P (ok payload) = Triple-pure payload (λ g p. p)
  body_or_answer-Triple P (err e) = Triple-throw _ (λ g p. tt)

  -- The safety of the handler, for every request and every world.
  pub delete_account-Triple :
      (request : Request)
      → Tri platform (λ g. g ≡ nothing_known) Justified (delete_account platform deps request)
  unfolding delete_account
  delete_account-Triple request = Triple-bind _ _ _ (Triple-throw_if _ _ (λ g p e. tt)) λ _.
      Triple-bind _ _ _ (body_or_answer-Triple _ _) λ payload.
        Triple-bind (λ _ g. g ≡ nothing_known) _ _
          (Triple-throw_none _ _ (λ g p e. tt) (λ r g p e. p.0))
          λ r.
            Triple-bind (λ _ g. g ≡ nothing_known) _ _
              (Triple-throw_none _ _ (λ g p e. tt) (λ token g p e. p))
              λ token.
                Triple-bind (λ verified g. (g.claims ≡ verified) × (g.cursor ≡ [])) _ _
                  (Triple-call (λ _. Unit) _ _ (λ w. tt)
                    (λ verified g _ p. (tt, (refl, ap (λ (k : Knowledge). k.cursor) p))))
                  λ verified.
                    Triple-bind (λ c g. Knows c AtStart g) _ _
                      (Triple-throw_none _ verified (λ g p e. tt) (λ c g p e. (p.0 ∙ e, p.1)))
                      λ c.
                        Triple-bind _ _ _
                          (Triple-weaken _ _ Stopped _ (Triple-throw_if _ _ (λ g p e. tt))
                            (λ g p. p) (λ _ g p. p.0) (λ x g p. p))
                          λ _. run_deletion-Triple c r

-- Whatever the request and the world, if the store moves the row that it is asked to move, the
-- requests that a deletion sends follow the safety protocol, and it ends with an answer that the store
-- has borne out.
pub delete_account-Follows :
    {W : Type 0} (platform : Platform) (deps : Dependencies W)
    → MovesRow deps
    → (request : Request) (w : W)
    → Follows (Allowed platform) observe nothing_known (delete_account platform deps request w).1
      × Ends Justified Stopped
          (delete_account platform deps request w).0
          (after observe nothing_known (delete_account platform deps request w).1)
delete_account-Follows platform deps moves request w =
    (delete_account-Triple platform deps moves request).at w nothing_known refl
