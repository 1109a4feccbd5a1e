-- ===== src/Effect.antt =====
-- Asynchronous routines over an outside world: a database, a network, a clock. A routine answers or
-- throws, and leaves behind the list of the requests it sent, each with the reply that it had.
pub mod Protocol
pub mod Hoare
use etkin_link.Base.{Option, none, some, Bool, map, List, [], ◌∷◌, ◌++◌, if◌then◌else◌}

pub data Result {ℓ} (E A : Type ℓ) : Type ℓ where
  ok : A → Result E A
  err : E → Result E A

-- W is the world, C a request with its reply, E what is thrown, A the answer.
abbrev pub Act {ℓ} : Type ℓ → Type ℓ → Type ℓ → Type ℓ → Type ℓ
Act W C E A = W → Result E A × List C × W

module _ {ℓ} {W C E A : Type ℓ} where
  pub pure : A → Act W C E A
  pure a w = (ok a, [], w)

  pub throw : E → Act W C E A
  throw e w = (err e, [], w)

  -- One request to the world, and its entry in the list.
  pub call : (W → A × W) → (A → C) → Act W C E A
  call send entry w = let (a, w') = send w in (ok a, entry a ∷ [], w')

  -- A rejected promise is `none`; `throw_none` is a `catch` that throws or returns.
  pub throw_none : E → Option A → Act W C E A
  throw_none e none w = (err e, [], w)
  throw_none e (some a) w = (ok a, [], w)

module _ {ℓ} {W C E E' A : Type ℓ} where
  -- `try`: what was thrown becomes a value.
  pub attempt : Act W C E A → Act W C E' (Result E A)
  attempt m w = let (r, l, w') = m w in (ok r, l, w')

module _ {ℓ} {W C E B : Type ℓ} where
  follow : List C → Result E B × List C × W → Result E B × List C × W
  follow l (r, l', w) = (r, l ++ l', w)

module _ {ℓ} {W C E A B : Type ℓ} where
  continue : Result E A → List C → W → (A → Act W C E B) → Result E B × List C × W
  unfolding follow
  continue (ok a) l w f = follow l (f a w)
  continue (err e) l w f = (err e, l, w)

  infixl 10 ◌>>=◌ ◌>>◌
  -- Opening this opens the other ways to build a routine too.
  unfoldable pub ◌>>=◌ : Act W C E A → (A → Act W C E B) → Act W C E B
  unfolding continue follow pure throw call throw_none attempt
  ◌>>=◌ m f w = let (r, l, w') = m w in continue r l w' f

  abbrev pub ◌>>◌ : Act W C E A → Act W C E B → Act W C E B
  m >> n = m >>= λ _. n

module _ {ℓ} {W C E : Type ℓ} where
  -- `if (c) throw e`, or a return from the middle of a handler.
  unfoldable pub throw_if : Bool → E → Act W C E (Unit {ℓ})
  unfolding throw pure
  throw_if c e = if c then throw e else pure tt

module _ {ℓ} {W C C' E A : Type ℓ} where
  -- The requests of a routine, as those of a larger one.
  pub relabel : (C → C') → Act W C E A → Act W C' E A
  relabel f m w = let (r, l, w') = m w in (r, map f l, w')
