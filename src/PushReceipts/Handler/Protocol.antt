-- ===== src/PushReceipts/Handler/Protocol.antt =====
-- The receipt worker as a whole, against its protocol.
use etkin_link.Base.{ℕ, ◌≡◌, refl, ap, Bool, true, false, List, Option, none, some, length}
use etkin_link.Text.{Str, codes}
use etkin_link.Json.{Json}
use etkin_link.Http.{Request, Platform}
use etkin_link.BoundedJson.{ReadError, bounded, thrown}
use etkin_link.BoundedJson.Statuses.{RefusedWell, read_bounded_json_request-RefusedWell}
use etkin_link.WorkerAuth.{Crypto, WorkerAuthorization, authorize_worker_request}
use etkin_link.WorkerAuth.Signing.{authorize_worker_request-IsGenuine}
use etkin_link.Effect.{Result, ok, err, Act}
use etkin_link.Effect.Protocol.{
  Follows, after, Ends, Triple, Triple-pure, Triple-throw, Triple-throw_none, Triple-call,
  Triple-weaken, Triple-bind, Triple-throw_if,
}
use etkin_link.PushReceipts.Receipt.{}
use etkin_link.PushReceipts.Handler.{
  PendingDelivery, Call, consume_nonce, claim_receipts, Dependencies, Response, secret_or_empty,
  check_nonce, claim_and_check, run_worker, body_or_answer, handle_push_receipts,
}
use etkin_link.PushReceipts.Handler.Safety.{
  Progress, fresh, observe, Allowed, Reported, check_deliveries-Rule,
}

module _ {W : Type 0} (platform : Platform) (crypto : Crypto) (deps : Dependencies W)
    (request : Request) where
  abbrev secret : Str
  secret = secret_or_empty deps.worker_secret

  abbrev Rule :
      {A : Type 0} → (Progress → Type 0) → (A → Progress → Type 0) → Act W Call Response A → Type 0
  Rule Pre Post m = Triple (Allowed crypto request secret) observe Pre Post Reported m

  admitted_lem :
      (a : WorkerAuthorization) (reply : Option (Option Bool)) (g : Progress)
      → reply ≡ some (some true)
      → (observe g (consume_nonce a reply)).admitted ≡ true
  admitted_lem a none g e = cc
  admitted_lem a (some none) g e = cc
  admitted_lem a (some (some b)) g e = cc

  abbrev Claimed : List PendingDelivery → Progress → Type 0
  Claimed deliveries g =
      (g.admitted ≡ true) × (g.claimed ≡ length deliveries) × (g.queue ≡ deliveries)

  claimed_lem :
      (reply : Option (List PendingDelivery)) (n : ℕ) (g : Progress)
      → g.admitted ≡ true
      → (deliveries : List PendingDelivery) → reply ≡ some deliveries
      → Claimed deliveries (observe g (claim_receipts n reply))
  claimed_lem none n g p deliveries e = cc
  claimed_lem (some found) n g p deliveries e =
      let same : found ≡ deliveries = cc in (p, ap length same, same)

  check_nonce-Rule :
      (accepted : Option Bool)
      → Rule
          (λ g. accepted ≡ some true → g.admitted ≡ true)
          (λ _ g. g.admitted ≡ true)
          (check_nonce platform crypto deps request accepted)
  unfolding check_nonce
  check_nonce-Rule none = Triple-throw _ (λ g p. (refl, tt))
  check_nonce-Rule (some true) = Triple-pure tt (λ g p. p refl)
  check_nonce-Rule (some false) = Triple-throw _ (λ g p. (refl, tt))

  claim-Rule : Rule (λ g. g.admitted ≡ true) Reported (claim_and_check platform crypto deps request)
  unfolding claim_and_check
  claim-Rule =
      Triple-bind
        (λ reply g.
          (deliveries : List PendingDelivery) → reply ≡ some deliveries → Claimed deliveries g)
        _ _
        (Triple-call (λ _. Unit) _ _ (λ w. tt)
          (λ reply g r p. ((p, refl), claimed_lem reply 300 g p)))
        (λ reply.
          Triple-bind Claimed _ _
            (Triple-throw_none _ reply (λ g p h. (refl, tt)) (λ deliveries g p h. p deliveries h))
            (λ deliveries.
              check_deliveries-Rule platform crypto deps request (length deliveries) deliveries
                refl))

  run_worker-Rule :
      (raw_body : Str)
      → Rule (λ _. Unit) Reported (run_worker platform crypto deps request raw_body)
  unfolding run_worker
  run_worker-Rule raw_body =
      Triple-bind (λ _ _. Unit) _ _ (Triple-call (λ _. Unit) _ _ (λ w. tt) (λ now g r p. (tt, tt)))
        (λ now.
          Triple-bind
            (λ a _.
              authorize_worker_request crypto request secret (codes "push-receipts") raw_body now
              ≡ some a)
            _ _ (Triple-throw_none _ _ (λ g p h. (refl, tt)) (λ a g p h. h))
            (λ a.
              Triple-bind (λ reply g. reply ≡ some (some true) → g.admitted ≡ true) _ _
                (Triple-call (λ _. Unit) _ _ (λ w. tt)
                  (λ reply g r h. (
                    (
                      raw_body,
                      now,
                      authorize_worker_request-IsGenuine crypto request secret
                          (codes "push-receipts") raw_body now a h,
                    ),
                    admitted_lem a reply g,
                  )))
                (λ reply.
                  Triple-bind (λ accepted g. accepted ≡ some true → g.admitted ≡ true) _ _
                    (Triple-throw_none _ reply (λ g p h. (refl, tt))
                      (λ accepted g p h e. p (rw (h, e) refl)))
                    (λ accepted.
                      Triple-bind (λ _ g. g.admitted ≡ true) _ _ (check_nonce-Rule accepted)
                        (λ _. claim-Rule)))))

  body_or_answer-Rule :
      (r : Result ReadError (Str × Json))
      → RefusedWell r
      → Rule (λ _. Unit) (λ _ _. Unit) (body_or_answer platform crypto deps request r)
  unfolding body_or_answer
  body_or_answer-Rule (ok parsed) well = Triple-pure _ (λ g p. tt)
  body_or_answer-Rule (err (bounded e)) well = Triple-throw _ (λ g p. (well, tt))
  body_or_answer-Rule (err thrown) well = Triple-throw _ (λ g p. (refl, tt))

  handle-Rule : Rule (λ _. Unit) Reported (handle_push_receipts platform crypto deps request)
  unfolding handle_push_receipts
  handle-Rule =
      Triple-bind (λ _ _. Unit) _ _
        (Triple-weaken _ _ _ _ (Triple-throw_if _ _ (λ g p h. (refl, tt))) (λ g p. p) (λ _ g p. tt)
          (λ e g p. p))
        (λ _.
          Triple-bind (λ _ _. Unit) _ _
            (Triple-weaken _ _ _ _ (Triple-throw_if _ _ (λ g p h. (refl, tt))) (λ g p. p)
              (λ _ g p. tt) (λ e g p. p))
            (λ _.
              Triple-bind (λ _ _. Unit) _ _
                (body_or_answer-Rule _ (read_bounded_json_request-RefusedWell platform request _))
                (λ parsed.
                  Triple-bind (λ _ _. Unit) _ _
                    (Triple-weaken _ _ _ _ (Triple-throw_if _ _ (λ g p h. (refl, tt))) (λ g p. p)
                      (λ _ g p. tt) (λ e g p. p))
                    (λ _. run_worker-Rule parsed.0))))

  -- Whatever the request and the world: a nonce is consumed only with a signature of the worker's
  -- secret; deliveries are claimed, 300 at most, and the push service is called only after a fresh
  -- nonce; a result is stored for the claimed deliveries in their order, one for each. Each answer has
  -- its status: 502 when the push service gave no receipts, 200 when the receipts were checked or there
  -- was none to check, and another one with every other error. An answer with 200 or 502 leaves no
  -- delivery without a result, and the numbers of a tally add up to the claimed.
  pub handle_push_receipts-Follows :
      (w : W)
      → Follows
          (Allowed crypto request secret)
          observe
          fresh
          (handle_push_receipts platform crypto deps request w).1
        × Ends Reported Reported
            (handle_push_receipts platform crypto deps request w).0
            (after observe fresh (handle_push_receipts platform crypto deps request w).1)
  handle_push_receipts-Follows w = handle-Rule.at w fresh tt
