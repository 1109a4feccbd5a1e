-- ===== src/DeleteAccount/Worker/Batch.antt =====
-- A whole run of the deletion worker, against the safety protocol.
use etkin_link.Base.{
  ℕ, suc, ◌+◌, ◌≤◌, ◌≡◌, refl, ◌∙◌, Bool, true, false, List, [], ◌∷◌, Option, none, some, length,
  arith,
}
use etkin_link.Text.{Str}
use etkin_link.Http.{Request, Platform}
use etkin_link.WorkerAuth.{Crypto, authorize_worker_request}
use etkin_link.WorkerAuth.Signing.{authorize_worker_request-IsGenuine}
use etkin_link.Effect.{Result, ok, err, Act}
use etkin_link.Effect.Protocol.{
  Follows, after, Ends, Triple, Triple-pure, Triple-throw, Triple-throw_none, Triple-call,
  Triple-weaken, Triple-bind, Triple-throw_if, Triple-given, Triple-attempt,
}
use etkin_link.DeleteAccount.Drain.{WorkerRequestError, parse_drain_command_bounds}
use etkin_link.DeleteAccount.Worker.{
  ContinuationClaim, Outcome, claim_completed, claim_resumable, claim_failed, ContinuationCode,
  Call, consume_nonce, claim_batch, claim_continuations, Dependencies, Stop, continuation_error,
  out_of_fuel, Tally, empty_tally, Exit, count_outcome, count_terminal, settle, release_claim,
  drain_claim, drain_claims, value_or_answer, secret_or_empty, run_batch,
  handle_continuation_worker, worker_scope,
}
use etkin_link.DeleteAccount.Worker.Safety.{
  Progress, fresh, observe, Allowed, IsSettled, Counted, Drained, Stopped,
}
use etkin_link.DeleteAccount.Worker.Claims.{true_of_not, Missed, process_claim-Triple}

count_terminal-Counted :
    (outcome : Outcome) (terminal : Bool) (n : ℕ) (tally : Tally)
    → Counted n tally
    → Counted (suc n) (count_terminal terminal (count_outcome outcome tally))
unfolding count_terminal count_outcome
count_terminal-Counted claim_completed true n tally h = (omega arith, omega arith)
count_terminal-Counted claim_completed false n tally h = (omega arith, omega arith)
count_terminal-Counted claim_resumable true n tally h = (omega arith, omega arith)
count_terminal-Counted claim_resumable false n tally h = (omega arith, omega arith)
count_terminal-Counted claim_failed true n tally h = (omega arith, omega arith)
count_terminal-Counted claim_failed false n tally h = (omega arith, omega arith)

module _ {W : Type 0} (deps : Dependencies W) (crypto : Crypto) (request : Request)
    (secret : Str) where
  abbrev Rule :
      {A : Type 0} → (Progress → Type 0) → (A → Progress → Type 0) → Act W Call Exit A → Type 0
  Rule Pre Post m = Triple (Allowed crypto request secret) observe Pre Post Stopped m

  abbrev Settling : List ContinuationClaim → Outcome → Progress → Type 0
  Settling queue outcome g = (g.queue ≡ queue) × IsSettled g outcome

  settle-Rule :
      (queue : List ContinuationClaim) (result : Result Stop Outcome)
      → Rule
          (λ g. Ends (Settling queue) (Missed queue) result g)
          (λ settled g. Settling queue settled.0 g)
          (settle result)
  unfolding settle
  settle-Rule queue (ok outcome) = Triple-pure _ (λ g p. p)
  settle-Rule queue (err (continuation_error code)) = Triple-pure _ (λ g p. (p, tt))
  settle-Rule queue (err out_of_fuel) = Triple-throw _ (λ g p. p)

  release_claim-Rule :
      (claim : ContinuationClaim) (rest : List ContinuationClaim) (outcome : Outcome)
      (code : Option ContinuationCode)
      → Rule
          (Settling (claim ∷ rest) outcome)
          (λ _ g. g.queue ≡ rest)
          (release_claim deps claim outcome code)
  unfolding release_claim
  release_claim-Rule claim rest outcome code =
      Triple-bind (λ _ g. g.queue ≡ rest) _ _
        (Triple-call (λ _. Unit) _ _ (λ w. tt) (λ reply g r p. (((rest, p.0), p.1), rw p.0 refl)))
        (λ reply.
          Triple-bind (λ _ g. g.queue ≡ rest) _ _
            (Triple-throw_none _ reply (λ g p h. tt) (λ a g p h. p))
            (λ release.
              Triple-bind _ _ _ (Triple-throw_if _ _ (λ g p h. tt))
                (λ _. Triple-pure release (λ g p. p.0))))

  drain_claim-Rule :
      (claim : ContinuationClaim) (rest : List ContinuationClaim) (n : ℕ) (tally : Tally)
      → Counted n tally
      → Rule
          (λ g. g.queue ≡ claim ∷ rest)
          (λ tally' g. (g.queue ≡ rest) × Counted (suc n) tally')
          (drain_claim deps claim tally)
  unfolding drain_claim
  drain_claim-Rule claim rest n tally counted =
      Triple-bind _ _ _
        (Triple-attempt _ (process_claim-Triple deps crypto request secret claim rest))
        (λ result. Triple-bind _ _ _ (settle-Rule (claim ∷ rest) result) (λ settled.
          Triple-bind (λ _ g. g.queue ≡ rest) _ _
            (release_claim-Rule claim rest settled.0 settled.1)
            (λ release.
              Triple-pure _
                (λ g p. (p, count_terminal-Counted settled.0 release.terminal n tally counted)))))

  drain_claims-Rule :
      (claimed n : ℕ) (claims : List ContinuationClaim) (tally : Tally)
      → Counted n tally
      → n + length claims ≡ claimed
      → Rule (λ g. g.queue ≡ claims) Drained (drain_claims deps claimed claims tally)
  unfolding drain_claims
  drain_claims-Rule claimed n [] tally counted size =
      Triple-pure _ (λ g p. (p, (omega (arith, counted), omega (arith, counted)), refl))
  drain_claims-Rule claimed n (claim ∷ rest) tally counted size =
      Triple-bind (λ tally' g. (g.queue ≡ rest) × Counted (suc n) tally') _ _
        (drain_claim-Rule claim rest n tally counted)
        (λ tally'. Triple-given _ (λ g p.
          Triple-weaken _ _ _ _ (drain_claims-Rule claimed (suc n) rest tally' p.1 (omega arith))
            (λ g p. p.0) (λ r g p. p) (λ e g p. p)))

  value_or_answer-Rule :
      {A : Type 0} (r : Result WorkerRequestError A) (Pre : Progress → Type 0)
      → Rule Pre (λ a g. Pre g × (r ≡ ok a)) (value_or_answer deps r)
  unfolding value_or_answer
  value_or_answer-Rule (ok a) Pre = Triple-pure a (λ g p. (p, refl))
  value_or_answer-Rule (err e) Pre = Triple-throw _ (λ g p. tt)

module _ {W : Type 0} (platform : Platform) (crypto : Crypto) (deps : Dependencies W)
    (request : Request) where
  abbrev secret : Str
  secret = secret_or_empty deps.worker_secret

  admitted_lem :
      (reply : Option Bool) (nonce : Str) (timestamp : ℕ) (g : Progress) (b : Bool)
      → reply ≡ some b
      → (observe g (consume_nonce nonce timestamp reply)).admitted ≡ b
  admitted_lem none nonce timestamp g b e = cc
  admitted_lem (some b') nonce timestamp g b e = cc

  queue_lem :
      (found : Option (List ContinuationClaim)) (size : ℕ) (g : Progress)
      (claims : List ContinuationClaim)
      → found ≡ some claims
      → (observe g (claim_continuations size found)).queue ≡ claims
  queue_lem none size g claims e = cc
  queue_lem (some claims') size g claims e = cc

  claim_batch-Rule :
      (size : ℕ)
      → 1 ≤ size
      → size ≤ 10
      → Rule deps crypto request secret
          (λ g. g.admitted ≡ true)
          Drained
          (claim_batch platform crypto deps request size)
  unfolding claim_batch
  claim_batch-Rule size one ten =
      Triple-bind
        (λ found g. (claims : List ContinuationClaim) → found ≡ some claims → g.queue ≡ claims) _ _
        (Triple-call (λ _. Unit) _ _ (λ w. tt)
          (λ found g r p. ((p, one, ten), queue_lem found size g)))
        (λ found.
          Triple-bind (λ claims g. g.queue ≡ claims) _ _
            (Triple-throw_none _ found (λ g p h. tt) (λ claims g p h. p claims h))
            (λ claims.
              drain_claims-Rule deps crypto request secret (length claims) 0 claims empty_tally
                (refl, omega arith) (omega arith)))

  run_batch-Rule :
      (size : ℕ) (raw_body : Str)
      → 1 ≤ size
      → size ≤ 10
      → Rule deps crypto request secret
          (λ _. Unit)
          Drained
          (run_batch platform crypto deps request size raw_body)
  unfolding run_batch
  run_batch-Rule size raw_body one ten =
      Triple-bind (λ _ _. Unit) _ _ (Triple-call (λ _. Unit) _ _ (λ w. tt) (λ now g r p. (tt, tt)))
        (λ now.
          Triple-bind
            (λ a _.
              authorize_worker_request crypto request secret worker_scope raw_body now ≡ some a)
            _ _ (Triple-throw_none _ _ (λ g p h. tt) (λ a g p h. h))
            (λ a.
              Triple-bind (λ reply g. (b : Bool) → reply ≡ some b → g.admitted ≡ b) _ _
                (Triple-call (λ _. Unit) _ _ (λ w. tt)
                  (λ reply g r h. (
                    (
                      raw_body,
                      now,
                      a,
                      authorize_worker_request-IsGenuine crypto request secret worker_scope raw_body
                          now a h,
                      refl,
                      refl,
                    ),
                    admitted_lem reply a.nonce a.timestamp g,
                  )))
                (λ reply.
                  Triple-bind (λ b g. g.admitted ≡ b) _ _
                    (Triple-throw_none _ reply (λ g p h. tt) (λ b g p h. p b h))
                    (λ b. Triple-bind _ _ _ (Triple-throw_if _ _ (λ g p h. tt)) (λ _.
                      Triple-weaken _ _ _ _ (claim_batch-Rule size one ten)
                        (λ g p. p.0 ∙ true_of_not b p.1) (λ r g p. p) (λ e g p. p))))))

  handle-Rule :
      Rule deps crypto request secret
        (λ _. Unit)
        Drained
        (handle_continuation_worker platform crypto deps request)
  unfolding handle_continuation_worker
  handle-Rule =
      Triple-bind (λ _ _. Unit) _ _
        (Triple-weaken _ _ _ _ (Triple-throw_if _ _ (λ g p h. tt)) (λ g p. p) (λ _ g p. tt)
          (λ e g p. p))
        (λ _.
          Triple-bind (λ _ _. Unit) _ _
            (Triple-weaken _ _ _ _ (value_or_answer-Rule deps crypto request secret _ (λ _. Unit))
              (λ g p. p) (λ _ g p. tt) (λ e g p. p))
            (λ raw_body.
              Triple-bind _ _ _ (value_or_answer-Rule deps crypto request secret _ (λ _. Unit))
                (λ size. Triple-given _ (λ g p.
                  let (one, ten) = parse_drain_command_bounds platform raw_body size p.1 in
                  Triple-weaken _ _ _ _ (run_batch-Rule size raw_body one ten) (λ g p. tt)
                    (λ r g p. p) (λ e g p. p)))))

  -- Whatever the request and the world: a nonce is consumed only with the signature of the worker's
  -- secret, claims are taken (one to ten) only after a fresh nonce, each claim is released in turn
  -- with an outcome that the store has borne out, its phases advance in order, only paths that were
  -- listed for it and lie in its user's folder are removed, and completion comes after an empty page.
  -- The loop over the pages ends, and the counts of the answer add up to the claims.
  pub handle_continuation_worker-Follows :
      (w : W)
      → Follows
          (Allowed crypto request secret)
          observe
          fresh
          (handle_continuation_worker platform crypto deps request w).1
        × Ends Drained Stopped
            (handle_continuation_worker platform crypto deps request w).0
            (after observe fresh (handle_continuation_worker platform crypto deps request w).1)
  handle_continuation_worker-Follows w = handle-Rule.at w fresh tt
