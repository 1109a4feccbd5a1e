-- ===== src/Network/Retry.antt =====
-- When a request is repeated: `createRetryingGetFetch` of mobile/src/shared/lib/network.ts.
use etkin_link.Base.{
  ℕ, zero, suc, ◌+◌, ◌≤◌, ◌≡◌, refl, ap, min, Bool, true, false, Option, none, some, arith, ◌⊎◌,
  inl, inr, if◌then◌else◌,
}
use etkin_link.Int.{pos, negsuc}
use etkin_link.Text.{Str}
use etkin_link.Http.{Platform, Number, not_finite, whole, broken_number, Reply}
use etkin_link.Effect.{Act, call}
use etkin_link.Effect.Protocol.{
  Follows, after, Ends, Triple, Triple-pure, Triple-throw, Triple-call, Triple-if, Triple-weaken,
  Triple-bind,
}
use etkin_link.Network.{
  method_of, is_idempotent, attempts_of, Call, fetched, signal, slept, clock, drawn, cancelled,
  Failure, method_refused, attempts_refused, unexpected_end, network_error, abort_error, Options,
  is_retriable, random_delay, retry_delay, slept_or_throw, pause, after_error, after_status, judge,
  last_round, fetch_loop, start_loop, retrying_get_fetch,
}

pub record Progress : Type 0 where
  pub fetches : ℕ
  pub last : Option (Option Reply)
  pub waited : Bool
  pub aborted : Bool

abbrev pub fresh : Progress
fresh = record { fetches = 0; last = none; waited = true; aborted = false }

abbrev pub observe : Progress → Call → Progress
observe g (fetched reply) = record {
  fetches = g.fetches + 1;
  last = some reply;
  waited = false;
  aborted = g.aborted;
}
observe g (signal b) = record g { aborted = b }
observe g (slept d true) = record g { waited = true }
observe g (slept d false) = record g { aborted = true }
observe g _ = g

-- What a repeat needs: no answer, or one that may pass.
abbrev pub MayPass : Option (Option Reply) → Type 0
MayPass none = ⊥
MayPass (some none) = Unit
MayPass (some (some reply)) = is_retriable reply ≡ true

abbrev pub Allowed : Str → ℕ → ℕ → Progress → Call → Type 0
Allowed method attempts longest g (fetched reply) =
    (is_idempotent method ≡ true)
    × (g.waited ≡ true)
    × (g.aborted ≡ false)
    × (g.fetches + 1 ≤ attempts)
Allowed method attempts longest g (slept d done) =
    MayPass g.last × (g.aborted ≡ false) × (d ≤ longest)
Allowed method attempts longest g _ = Unit

abbrev pub Returned : ℕ → Reply → Progress → Type 0
Returned attempts reply g =
    (g.last ≡ some (some reply)) × ((is_retriable reply ≡ false) ⊎ (g.fetches ≡ attempts))

abbrev pub Reported : ℕ → Failure → Progress → Type 0
Reported attempts network_error g =
    (g.last ≡ some none) × ((g.aborted ≡ true) ⊎ (g.fetches ≡ attempts))
Reported attempts abort_error g = g.aborted ≡ true
Reported attempts method_refused g = g.fetches ≡ 0
Reported attempts attempts_refused g = g.fetches ≡ 0
Reported attempts unexpected_end g = ⊥

-- How often a call may be sent at most.
abbrev pub most : Option ℕ → ℕ
most none = 0
most (some n) = n

pub attempts_of_bounds :
    (given : Option Number) (n : ℕ) → attempts_of given ≡ some n → (1 ≤ n) × (n ≤ 5)
unfolding attempts_of
attempts_of_bounds none n h = ground arith
attempts_of_bounds (some not_finite) n h = cc
attempts_of_bounds (some (whole (pos k))) n h = ground arith
attempts_of_bounds (some (whole (negsuc k))) n h = cc
attempts_of_bounds (some (broken_number a b)) n h = cc

module _ {W : Type 0} (platform : Platform) (options : Options W) (method : Str)
    (idempotent : is_idempotent method ≡ true) (attempts : ℕ) where
  abbrev Rule :
      {A : Type 0} → (Progress → Type 0) → (A → Progress → Type 0) → Act W Call Failure A → Type 0
  Rule Pre Post m =
      Triple (Allowed method attempts options.maximum_retry_after_ms) observe Pre Post
        (Reported attempts) m

  abbrev Ready : ℕ → Progress → Type 0
  Ready left g = (g.waited ≡ true) × (g.aborted ≡ false) × (g.fetches + left ≡ attempts)

  abbrev Answered : ℕ → Option Reply → Progress → Type 0
  Answered left reply g =
      (g.last ≡ some reply) × (g.aborted ≡ false) × (g.fetches + left ≡ attempts)

  pause-Rule :
      (left delay : ℕ) (reply : Option Reply)
      → MayPass (some reply)
      → Rule (Answered left reply) (λ _ g. Ready left g) (pause platform options delay)
  unfolding pause
  pause-Rule left delay reply bad =
      Triple-bind (λ done g. if done then Ready left g else g.aborted ≡ true) _ _
        (Triple-call (λ _. Unit) _ _ (λ w. tt)
          (λ done g r p. ((rw p.0 bad, p.1, omega arith), slept_so done g p)))
        after_sleep
    where
      slept_so :
          (done : Bool) (g : Progress)
          → Answered left reply g
          → (if done
              then Ready left (observe g (slept (min options.maximum_retry_after_ms delay) done))
              else (observe g (slept (min options.maximum_retry_after_ms delay) done)).aborted
                ≡ true)
      slept_so true g p = (refl, p.1, p.2)
      slept_so false g p = refl

      after_sleep :
          (done : Bool)
          → Rule
              (λ g. if done then Ready left g else g.aborted ≡ true)
              (λ _ g. Ready left g)
              (slept_or_throw platform options done)
      after_sleep true = Triple-pure tt (λ g p. p)
      after_sleep false = Triple-throw abort_error (λ g p. p)

  random_delay-Rule :
      (exponent : ℕ) (Pre : Progress → Type 0)
      → Rule Pre (λ _ g. Pre g) (random_delay platform options exponent)
  unfolding random_delay
  random_delay-Rule exponent Pre =
      Triple-bind (λ _ g. Pre g) _ _
        (Triple-call (λ _. Unit) options.random drawn (λ w. tt) (λ a g r p. (tt, p)))
        (λ draw. Triple-pure _ (λ g p. p))

  retry_delay-Rule :
      (exponent : ℕ) (given : Option ℕ) (Pre : Progress → Type 0)
      → Rule Pre (λ _ g. Pre g) (retry_delay platform options exponent given)
  unfolding retry_delay
  retry_delay-Rule exponent none Pre = random_delay-Rule exponent Pre
  retry_delay-Rule exponent (some d) Pre = Triple-pure d (λ g p. p)

  judge-Rule :
      (exponent left : ℕ) (again : Act W Call Failure Reply) (reply : Option Reply)
      → Rule (Ready left) (Returned attempts) again
      → Rule (Answered left reply) (Returned attempts) (judge platform options exponent again reply)
  unfolding judge after_error after_status
  judge-Rule exponent left again none next =
      Triple-bind
        (λ aborted g. (g.last ≡ some none) × (g.aborted ≡ aborted) × (g.fetches + left ≡ attempts))
        _ _
        (Triple-call (λ _. Unit) options.aborted signal (λ w. tt)
          (λ b g r p. (tt, (p.0, refl, p.2))))
        after_look
    where
      after_look :
          (aborted : Bool)
          → Rule
              (λ g. (g.last ≡ some none) × (g.aborted ≡ aborted) × (g.fetches + left ≡ attempts))
              (Returned attempts)
              (after_error platform options exponent again aborted)
      after_look true = Triple-throw network_error (λ g p. (p.0, inl p.1))
      after_look false =
          Triple-bind (λ _ g. Answered left none g) _ _
            (random_delay-Rule exponent (Answered left none))
            (λ delay.
              Triple-bind (λ _ g. Ready left g) _ _ (pause-Rule left delay none tt) (λ _. next))
  judge-Rule exponent left again (some reply) next =
      Triple-if (is_retriable reply) _ _
        (λ passing.
          Triple-bind (λ _ g. Answered left (some reply) g) _ _
            (Triple-call (λ _. Unit) options.now clock (λ w. tt) (λ a g r p. (tt, p)))
            (λ now.
              Triple-bind (λ _ g. Answered left (some reply) g) _ _
                (retry_delay-Rule exponent _ (Answered left (some reply)))
                (λ delay.
                  Triple-bind (λ _ g. Answered left (some reply) g) _ _
                    (Triple-call (λ _. Unit) (options.cancel reply) (λ _. cancelled) (λ w. tt)
                      (λ a g r p. (tt, p)))
                    (λ _.
                      Triple-bind (λ _ g. Ready left g) _ _
                        (pause-Rule left delay (some reply) passing) (λ _. next)))))
        (λ lasting. Triple-pure reply (λ g p. (p.0, inl lasting)))

  fetch-Rule : (left : ℕ) → Rule (Ready (suc left)) (Answered left) (call options.fetch fetched)
  fetch-Rule left =
      Triple-call (λ _. Unit) options.fetch fetched (λ w. tt)
        (λ reply g r p.
          ((idempotent, p.0, p.1, omega (arith, p.2)), (refl, p.1, omega (arith, p.2))))

  last_round-Rule :
      (reply : Option Reply)
      → Rule (Answered 0 reply) (Returned attempts) (last_round platform options reply)
  unfolding last_round
  last_round-Rule none = Triple-throw network_error (λ g p. (p.0, inr (omega (arith, p.2))))
  last_round-Rule (some reply) = Triple-pure reply (λ g p. (p.0, inr (omega (arith, p.2))))

  fetch_loop-Rule :
      (left exponent : ℕ)
      → Rule
          (Ready (suc left))
          (Returned attempts)
          (fetch_loop platform options (suc left) exponent)
  unfolding fetch_loop
  fetch_loop-Rule zero exponent =
      Triple-bind (λ reply g. Answered 0 reply g) _ _ (fetch-Rule 0) last_round-Rule
  fetch_loop-Rule (suc left) exponent =
      Triple-bind (λ reply g. Answered (suc left) reply g) _ _ (fetch-Rule (suc left))
        (λ reply. judge-Rule exponent (suc left) _ reply (fetch_loop-Rule left (suc exponent)))

module _ {W : Type 0} (platform : Platform) (options : Options W) (method : Str) where
  abbrev Whole : Option ℕ → Act W Call Failure Reply → Type 0
  Whole given m =
      Triple (Allowed method (most given) options.maximum_retry_after_ms) observe (λ g. g ≡ fresh)
        (Returned (most given)) (Reported (most given)) m

  start_loop-Rule :
      is_idempotent method ≡ true
      → (given : Option ℕ) → ((n : ℕ) → given ≡ some n → 1 ≤ n)
      → Whole given (start_loop platform options given)
  unfolding start_loop
  start_loop-Rule idempotent none some_left =
      Triple-throw attempts_refused (λ g e. ap (λ (h : Progress). h.fetches) e)
  start_loop-Rule idempotent (some zero) some_left = absurd (omega (arith, some_left 0 refl))
  start_loop-Rule idempotent (some (suc n)) some_left =
      Triple-weaken _ _ _ _ (fetch_loop-Rule platform options method idempotent (suc n) n 0)
        (λ g e. rw e (refl, refl, omega arith)) (λ _ g p. p) (λ _ g p. p)

module _ {W : Type 0} (platform : Platform) (options : Options W)
    (method request_method : Option Str) where
  retrying_get_fetch-Rule :
      Whole platform options
        (method_of method request_method)
        (attempts_of options.attempts)
        (retrying_get_fetch platform options method request_method)
  unfolding retrying_get_fetch
  retrying_get_fetch-Rule =
      Triple-if (is_idempotent (method_of method request_method)) _ _
        (λ idempotent.
          start_loop-Rule platform options (method_of method request_method) idempotent
            (attempts_of options.attempts) (λ n e. (attempts_of_bounds options.attempts n e).0))
        (λ other. Triple-throw method_refused (λ g e. ap (λ (h : Progress). h.fetches) e))

  -- Only GET and HEAD requests are sent, as often as the options say at most, one to five times. A
  -- repeat needs that no answer came or one of status 429, or 500 and above, that the signal did not
  -- abort, and a pause of the longest allowed length at most. The answer that is returned is the
  -- last one, and one that may pass is returned only when no try is left. An error of the network is
  -- passed on only for the last try, or where the signal aborts, and the error after the loop is never thrown.
  pub retrying_get_fetch-Follows :
      (w : W)
      → Follows
          (Allowed
            (method_of method request_method)
            (most (attempts_of options.attempts))
            options.maximum_retry_after_ms)
          observe
          fresh
          (retrying_get_fetch platform options method request_method w).1
        × Ends
            (Returned (most (attempts_of options.attempts)))
            (Reported (most (attempts_of options.attempts)))
            (retrying_get_fetch platform options method request_method w).0
            (after observe fresh (retrying_get_fetch platform options method request_method w).1)
        × (most (attempts_of options.attempts) ≤ 5)
  retrying_get_fetch-Follows w =
      let (sent, last) = (retrying_get_fetch-Rule).at w fresh refl in
      (sent, last, most_bound (attempts_of options.attempts) (attempts_of_bounds options.attempts))
    where
      most_bound :
          (given : Option ℕ) → ((n : ℕ) → given ≡ some n → (1 ≤ n) × (n ≤ 5)) → most given ≤ 5
      most_bound none h = omega arith
      most_bound (some n) h = (h n refl).1
