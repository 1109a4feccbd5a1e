-- ===== src/PushReceipts/Handler/Safety.antt =====
-- The protocol of the receipt worker, and its loops over the deliveries.
use etkin_link.Base.{
  ℕ, suc, ◌+◌, ◌≡◌, refl, Bool, true, false, not, List, [], ◌∷◌, Option, none, some, length, arith,
}
use etkin_link.Text.{Str, codes}
use etkin_link.Json.{Json}
use etkin_link.Http.{Request, Platform}
use etkin_link.BoundedJson.Statuses.{Refused}
use etkin_link.WorkerAuth.{Crypto}
use etkin_link.WorkerAuth.Signing.{IsGenuine}
use etkin_link.Effect.{Result, ok, err, Act}
use etkin_link.Effect.Protocol.{
  Ends, Triple, Triple-pure, Triple-throw, Triple-call, Triple-weaken, Triple-bind, Triple-throw_if,
  Triple-attempt, Triple-relabel,
}
use etkin_link.ExpoHttp.{Failure}
use etkin_link.PushReceipts.Receipt.{
  ReceiptState, delivered, invalid_token, retryable, permanent_failure, Receipts,
}
use etkin_link.PushReceipts.Handler.{
  PendingDelivery, ErrorCode, Call, clock, consume_nonce, claim_receipts, http, persist,
  Dependencies, bad_body, post_only, misconfigured, unreadable_body, bad_command, unauthorized,
  nonce_unverified, replayed, deliveries_unreadable, failure_not_stored, service_unreachable,
  result_not_stored, Tally, empty_tally, Answer, error, nothing_to_check, receipts_checked,
  Response, secret_or_empty, count_result, Problem, persist_receipt_result,
  persist_receipt_fetch_failure, store_receipts, conclude, check_deliveries,
}

pub record Progress : Type 0 where
  pub admitted : Bool
  pub claimed : ℕ
  pub queue : List PendingDelivery  -- without a stored result

abbrev pub fresh : Progress
fresh = record { admitted = false; claimed = 0; queue = [] }

abbrev pub rest_of : List PendingDelivery → List PendingDelivery
rest_of [] = []
rest_of (delivery ∷ rest) = rest

abbrev pub observe : Progress → Call → Progress
observe g (clock _) = g
observe g (consume_nonce _ (some (some accepted))) = record g { admitted = accepted }
observe g (consume_nonce _ _) = g
observe g (claim_receipts _ (some deliveries)) = record g {
  claimed = length deliveries;
  queue = deliveries;
}
observe g (claim_receipts _ none) = g
observe g (http _) = g
observe g (persist _ _ _ _ true) = record g { queue = rest_of g.queue }
observe g (persist _ _ _ _ false) = g

abbrev pub Allowed : Crypto → Request → (secret : Str) → Progress → Call → Type 0
Allowed crypto request secret g (clock _) = Unit
Allowed crypto request secret g (consume_nonce a _) =
    (raw_body : Str) × (now : ℕ) × IsGenuine crypto request secret (codes "push-receipts") raw_body
      now a
Allowed crypto request secret g (claim_receipts size _) = (g.admitted ≡ true) × (size ≡ 300)
Allowed crypto request secret g (http _) = g.admitted ≡ true
Allowed crypto request secret g (persist delivery _ _ _ _) =
    (g.admitted ≡ true) × ((rest : List PendingDelivery) × (g.queue ≡ delivery ∷ rest))

abbrev pub sum_of : Tally → ℕ
sum_of tally =
    tally.delivered_count + tally.retryable_count + tally.permanent_count + tally.invalid_count

-- The status that goes with each answer.
abbrev pub HasStatus : Answer → ℕ → Type 0
HasStatus nothing_to_check status = status ≡ 200
HasStatus (receipts_checked tally) status = status ≡ 200
HasStatus (error service_unreachable) status = status ≡ 502
HasStatus (error (bad_body reason)) status = Refused status
HasStatus (error post_only) status = status ≡ 405
HasStatus (error misconfigured) status = status ≡ 500
HasStatus (error unreadable_body) status = status ≡ 400
HasStatus (error bad_command) status = status ≡ 400
HasStatus (error unauthorized) status = status ≡ 401
HasStatus (error nonce_unverified) status = status ≡ 500
HasStatus (error replayed) status = status ≡ 401
HasStatus (error deliveries_unreadable) status = status ≡ 500
HasStatus (error failure_not_stored) status = status ≡ 500
HasStatus (error result_not_stored) status = status ≡ 500

-- The numbers of an answer add up to the claimed deliveries, and none is left without a result; no
-- more is left when the service could not be reached.
abbrev pub Claimed : Answer → Progress → Type 0
Claimed (error service_unreachable) g = g.queue ≡ []
Claimed (error _) g = Unit
Claimed nothing_to_check g = g.queue ≡ []
Claimed (receipts_checked tally) g =
    (g.queue ≡ []) × (tally.checked ≡ g.claimed) × (sum_of tally ≡ g.claimed)

-- An answer with 200 or 502 leaves no delivery without a result.
abbrev pub Reported : Response → Progress → Type 0
Reported response g = HasStatus response.body response.status × Claimed response.body g

-- The results counted so far, and the deliveries to come.
abbrev Counts : Tally → ℕ → Type 0
Counts tally n = (tally.checked ≡ n) × (sum_of tally ≡ n)

count_result-Counts :
    (state : ReceiptState) (tally : Tally) (n : ℕ)
    → Counts tally n
    → Counts (count_result state tally) (suc n)
unfolding count_result
count_result-Counts delivered tally n h = (omega (arith, h.0), omega (arith, h.1))
count_result-Counts retryable tally n h = (omega (arith, h.0), omega (arith, h.1))
count_result-Counts permanent_failure tally n h = (omega (arith, h.0), omega (arith, h.1))
count_result-Counts invalid_token tally n h = (omega (arith, h.0), omega (arith, h.1))

pub true_of_not : (b : Bool) → not b ≡ false → b ≡ true
true_of_not true h = refl
true_of_not false h = cc

module _ {W : Type 0} (platform : Platform) (crypto : Crypto) (deps : Dependencies W)
    (request : Request) (total : ℕ) where
  abbrev Rule :
      {A : Type 0} → (Progress → Type 0) → (A → Progress → Type 0) → Act W Call Response A → Type 0
  Rule Pre Post m =
      Triple (Allowed crypto request (secret_or_empty deps.worker_secret)) observe Pre Post Reported
        m

  abbrev Waits : List PendingDelivery → Progress → Type 0
  Waits queue g = (g.admitted ≡ true) × (g.claimed ≡ total) × (g.queue ≡ queue)

  stored_lem :
      (delivery : PendingDelivery) (state : ReceiptState) (code : Option ErrorCode)
      (message : Option Str) (rest : List PendingDelivery) (b : Bool) (g : Progress)
      → Waits (delivery ∷ rest) g
      → b ≡ true
      → Waits rest (observe g (persist delivery state code message b))
  stored_lem delivery state code message rest true g p h = (p.0, p.1, rw p.2 refl)
  stored_lem delivery state code message rest false g p h = cc

  persist-Rule :
      (delivery : PendingDelivery) (rest : List PendingDelivery) (state : ReceiptState)
      (code : Option ErrorCode) (message : Option Str)
      → Rule
          (Waits (delivery ∷ rest))
          (λ b g. b ≡ true → Waits rest g)
          (persist_receipt_result platform crypto deps request delivery state code message)
  unfolding persist_receipt_result
  persist-Rule delivery rest state code message =
      Triple-call (λ _. Unit) _ _ (λ w. tt)
        (λ b g r p. ((p.0, (rest, p.2)), stored_lem delivery state code message rest b g p))

  failure-Rule :
      (deliveries : List PendingDelivery) (state : ReceiptState) (code : ErrorCode)
      → Rule
          (Waits deliveries)
          (λ _ g. Waits [] g)
          (persist_receipt_fetch_failure platform crypto deps request deliveries state code)
  unfolding persist_receipt_fetch_failure
  failure-Rule [] state code = Triple-pure tt (λ g p. p)
  failure-Rule (delivery ∷ rest) state code =
      Triple-bind (λ b g. b ≡ true → Waits rest g) _ _
        (persist-Rule delivery rest state (some code) none)
        (λ b.
          Triple-bind (λ _ g. Waits rest g) _ _
            (Triple-weaken _ _ _ _ (Triple-throw_if _ _ (λ g p h. (refl, tt))) (λ g p. p)
              (λ _ g p. p.0 (true_of_not b p.1)) (λ e g p. p))
            (λ _. failure-Rule rest state code))

  store-Rule :
      (receipts : Receipts) (deliveries : List PendingDelivery) (tally : Tally) (n : ℕ)
      → Counts tally n
      → n + length deliveries ≡ total
      → Rule
          (Waits deliveries)
          Reported
          (store_receipts platform crypto deps request receipts deliveries tally)
  unfolding store_receipts
  store-Rule receipts [] tally n counts size =
      Triple-pure _ (λ g p.
        (refl, (p.2, omega (arith, counts.0, size, p.1), omega (arith, counts.1, size, p.1))))
  store-Rule receipts (delivery ∷ rest) tally n counts size =
      Triple-bind (λ b g. b ≡ true → Waits rest g) _ _ (persist-Rule delivery rest _ _ _)
        (λ b.
          Triple-bind (λ _ g. Waits rest g) _ _
            (Triple-weaken _ _ _ _ (Triple-throw_if _ _ (λ g p h. (refl, tt))) (λ g p. p)
              (λ _ g p. p.0 (true_of_not b p.1)) (λ e g p. p))
            (λ _.
              store-Rule receipts rest _ (suc n) (count_result-Counts _ tally n counts)
                (omega (arith, size))))

  conclude-Rule :
      (deliveries : List PendingDelivery) (result : Result Problem Receipts)
      → length deliveries ≡ total
      → Rule (Waits deliveries) Reported (conclude platform crypto deps request deliveries result)
  unfolding conclude
  conclude-Rule deliveries (ok receipts) size =
      store-Rule receipts deliveries empty_tally 0 (refl, refl) (omega (arith, size))
  conclude-Rule deliveries (err problem) size =
      Triple-bind (λ _ g. Waits [] g) _ _ (failure-Rule deliveries _ _)
        (λ _. Triple-throw _ (λ g p. (refl, p.2)))

  pub check_deliveries-Rule :
      (deliveries : List PendingDelivery)
      → length deliveries ≡ total
      → Rule (Waits deliveries) Reported (check_deliveries platform crypto deps request deliveries)
  unfolding check_deliveries
  check_deliveries-Rule [] size = Triple-pure _ (λ g p. (refl, p.2))
  check_deliveries-Rule (first ∷ more) size =
      Triple-bind (λ _ g. Waits (first ∷ more) g) _ _
        (Triple-weaken _ _ _ _
          (Triple-attempt _
            (Triple-relabel http (Waits (first ∷ more)) (λ g c p. p.0) (λ g c. refl) _))
          (λ g p. p) (λ r g p. same r g p) (λ e g p. p))
        (λ payload. conclude-Rule (first ∷ more) _ size)
    where
      same :
          (r : Result Failure Json) (g : Progress)
          → Ends (λ _ g. Waits (first ∷ more) g) (λ _ g. Waits (first ∷ more) g) r g
          → Waits (first ∷ more) g
      same (ok a) g p = p
      same (err e) g p = p
