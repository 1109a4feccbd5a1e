-- ===== src/Network/Recovery.antt =====
-- A server that recovers: `createRetryingGetFetch` of mobile/src/shared/lib/network.ts.
use etkin_link.Base.{
  ℕ, zero, suc, ◌+◌, ◌≤◌, ◌<◌, ◌≡◌, refl, sym, ◌∙◌, true, false, Option, none, some, arith, ◌⊎◌,
  inl, inr,
}
use etkin_link.Text.{Str}
use etkin_link.Http.{Platform, Reply}
use etkin_link.Effect.{Result, ok, err, Act, call}
use etkin_link.Effect.Hoare.{
  Hoare, Leaves, Hoare-pure, Hoare-throw, Hoare-call, Hoare-if, Hoare-bind, Hoare-assume,
  Hoare-fact,
}
use etkin_link.Network.{
  method_of, is_idempotent, attempts_of, Call, fetched, Failure, Options, is_retriable,
  random_delay, retry_delay, slept_or_throw, pause, after_error, after_status, judge, last_round,
  fetch_loop, start_loop, retrying_get_fetch,
}

abbrev pub IsGood : Option Reply → Type 0
IsGood none = ⊥
IsGood (some reply) = is_retriable reply ≡ false

-- `down` counts the requests that still fail, each of them in any way. Nothing else changes the number,
-- and nothing aborts.
pub record Recovers {W : Type 0} (options : Options W) (down : W → ℕ) : Type 0 where
  pub fails : (w : W) (n : ℕ) → down w ≡ suc n → down (options.fetch w).1 ≡ n
  pub answers : (w : W) → down w ≡ 0 → IsGood (options.fetch w).0
  pub not_aborted : (w : W) → (options.aborted w).0 ≡ false
  pub aborted_keeps : (w : W) → down (options.aborted w).1 ≡ down w
  pub sleeps : (d : ℕ) (w : W) → (options.sleep d w).0 ≡ true
  pub sleep_keeps : (d : ℕ) (w : W) → down (options.sleep d w).1 ≡ down w
  pub now_keeps : (w : W) → down (options.now w).1 ≡ down w
  pub random_keeps : (w : W) → down (options.random w).1 ≡ down w
  pub cancel_keeps : (r : Reply) (w : W) → down (options.cancel r w).1 ≡ down w

-- Fewer than `left` requests still fail.
abbrev Soon : ℕ → ℕ → Type 0
Soon left n = n + 1 ≤ left

module _ {W : Type 0} (platform : Platform) {options : Options W} {down : W → ℕ}
    (recovers : Recovers options down) where
  abbrev Works : {A : Type 0} → (ℕ → Type 0) → (A → ℕ → Type 0) → Act W Call Failure A → Type 0
  Works Pre Post m = Hoare down Pre Post (λ _ _. ⊥) m

  pause-Works :
      (left delay : ℕ) → Works (Soon left) (λ _ n. Soon left n) (pause platform options delay)
  unfolding pause slept_or_throw
  pause-Works left delay =
      Hoare-bind (λ done n. (done ≡ true) × Soon left n) _ _
        (Hoare-call _ _ (λ w p. (recovers.sleeps _ w, rw (recovers.sleep_keeps _ w) p)))
        (λ done. Hoare-fact _ _ (λ e. rw e (Hoare-pure tt (λ n p. p))))

  random_delay-Works :
      (left exponent : ℕ)
      → Works (Soon left) (λ _ n. Soon left n) (random_delay platform options exponent)
  unfolding random_delay
  random_delay-Works left exponent =
      Hoare-bind (λ _ n. Soon left n) _ _ (Hoare-call _ _ (λ w p. rw (recovers.random_keeps w) p))
        (λ draw. Hoare-pure _ (λ n p. p))

  retry_delay-Works :
      (left exponent : ℕ) (given : Option ℕ)
      → Works (Soon left) (λ _ n. Soon left n) (retry_delay platform options exponent given)
  unfolding retry_delay
  retry_delay-Works left exponent none = random_delay-Works left exponent
  retry_delay-Works left exponent (some d) = Hoare-pure d (λ n p. p)

  abbrev Good : Reply → ℕ → Type 0
  Good reply n = is_retriable reply ≡ false

  fetch-Works :
      (left : ℕ)
      → Works (Soon (suc left)) (λ reply n. IsGood reply ⊎ Soon left n) (call options.fetch fetched)
  fetch-Works left = Hoare-call _ _ (λ w p. by_count w (down w) refl p)
    where
      by_count :
          (w : W) (n : ℕ)
          → down w ≡ n
          → Soon (suc left) n
          → IsGood (options.fetch w).0 ⊎ Soon left (down (options.fetch w).1)
      by_count w zero e p = inl (recovers.answers w e)
      by_count w (suc n) e p = inr (rw (recovers.fails w n e) (omega (arith, p)))

  error-Works :
      (left exponent : ℕ) (again : Act W Call Failure Reply)
      → Works (Soon left) Good again
      → Works (Soon left) Good (judge platform options exponent again none)
  unfolding judge after_error
  error-Works left exponent again next =
      Hoare-bind (λ aborted n. (aborted ≡ false) × Soon left n) _ _
        (Hoare-call _ _ (λ w p. (recovers.not_aborted w, rw (recovers.aborted_keeps w) p)))
        (λ aborted. Hoare-fact _ _ (λ e. rw e (
          Hoare-bind (λ _ n. Soon left n) _ _ (random_delay-Works left exponent)
            (λ delay. Hoare-bind (λ _ n. Soon left n) _ _ (pause-Works left delay) (λ _. next)))))

  status-Works :
      (left exponent : ℕ) (reply : Reply) (again : Act W Call Failure Reply)
      → Works (Soon left) Good again
      → Works (Soon left) Good (after_status platform options exponent reply again)
  unfolding after_status
  status-Works left exponent reply again next =
      Hoare-bind (λ _ n. Soon left n) _ _ (Hoare-call _ _ (λ w p. rw (recovers.now_keeps w) p))
        (λ now.
          Hoare-bind (λ _ n. Soon left n) _ _ (retry_delay-Works left exponent _)
            (λ delay.
              Hoare-bind (λ _ n. Soon left n) _ _
                (Hoare-call _ _ (λ w p. rw (recovers.cancel_keeps reply w) p))
                (λ _. Hoare-bind (λ _ n. Soon left n) _ _ (pause-Works left delay) (λ _. next))))

  judge-Works :
      (left exponent : ℕ) (again : Act W Call Failure Reply) (reply : Option Reply)
      → Works (Soon left) Good again
      → Works (λ n. IsGood reply ⊎ Soon left n) Good (judge platform options exponent again reply)
  unfolding judge
  judge-Works left exponent again none next =
      Hoare-assume _ (error-Works left exponent again next) still_down
    where
      still_down : (n : ℕ) → IsGood none ⊎ Soon left n → Soon left n
      still_down n (inl h) = absurd h
      still_down n (inr h) = h
  judge-Works left exponent again (some reply) next =
      Hoare-if (is_retriable reply) _ _
        (λ bad. Hoare-assume _ (status-Works left exponent reply again next) (still_down bad))
        (λ good. Hoare-pure reply (λ n p. good))
    where
      still_down :
          is_retriable reply ≡ true → (n : ℕ) → IsGood (some reply) ⊎ Soon left n → Soon left n
      still_down bad n (inl good) = let wrong : true ≡ false = sym bad ∙ good in cc
      still_down bad n (inr h) = h

  last_round-Works :
      (reply : Option Reply)
      → Works (λ n. IsGood reply ⊎ Soon 0 n) Good (last_round platform options reply)
  unfolding last_round
  last_round-Works none = Hoare-throw _ never
    where
      never : (n : ℕ) → IsGood none ⊎ Soon 0 n → ⊥
      never n (inl h) = h
      never n (inr h) = omega (arith, h)
  last_round-Works (some reply) = Hoare-pure reply good
    where
      good : (n : ℕ) → IsGood (some reply) ⊎ Soon 0 n → Good reply n
      good n (inl h) = h
      good n (inr h) = absurd (omega (arith, h))

  fetch_loop-Works :
      (left exponent : ℕ)
      → Works (Soon (suc left)) Good (fetch_loop platform options (suc left) exponent)
  unfolding fetch_loop
  fetch_loop-Works zero exponent =
      Hoare-bind (λ reply n. IsGood reply ⊎ Soon 0 n) _ _ (fetch-Works 0) last_round-Works
  fetch_loop-Works (suc left) exponent =
      Hoare-bind (λ reply n. IsGood reply ⊎ Soon (suc left) n) _ _ (fetch-Works (suc left))
        (λ reply. judge-Works (suc left) exponent _ reply (fetch_loop-Works left (suc exponent)))

  -- A GET or HEAD request to a server that answers properly after fewer failures than there are tries
  -- returns an answer that is no passing failure, if nothing aborts.
  pub retrying_get_fetch-Recovers :
      (method request_method : Option Str) (attempts : ℕ) (w : W)
      → is_idempotent (method_of method request_method) ≡ true
      → attempts_of options.attempts ≡ some attempts
      → down w < attempts
      → (reply : Reply) × ((retrying_get_fetch platform options method request_method w).0
          ≡ ok reply)
        × (is_retriable reply ≡ false)
  unfolding retrying_get_fetch start_loop
  retrying_get_fetch-Recovers method request_method zero w idempotent given few =
      absurd (omega (arith, few))
  retrying_get_fetch-Recovers method request_method (suc left) w idempotent given few =
      rw (idempotent, given) (returned _ _ ((fetch_loop-Works left 0).at w (omega (arith, few))))
    where
      returned :
          (r : Result Failure Reply) (v : W)
          → Leaves down Good (λ _ _. ⊥) r v
          → (reply : Reply) × (r ≡ ok reply) × (is_retriable reply ≡ false)
      returned (ok reply) v h = (reply, refl, h)
      returned (err e) v h = absurd h
