-- ===== src/Effect/Hoare.antt =====
-- What a routine does to a part of the world that can be seen: what holds of it before the routine,
-- after it returns, and after it throws. There is one rule for each way to build a routine.
use etkin_link.Base.{◌≡◌, refl, ◌⊎◌, inl, inr, Bool, true, false, List, if◌then◌else◌}
use etkin_link.Effect.{Result, ok, err, Act, pure, throw, call, attempt, continue, follow, ◌>>=◌}

module _ {ℓ} {W S E A : Type ℓ} (view : W → S) where
  abbrev pub Leaves : (A → S → Type ℓ) → (E → S → Type ℓ) → Result E A → W → Type ℓ
  Leaves Post Fail (ok a) w = Post a (view w)
  Leaves Post Fail (err e) w = Fail e (view w)

abbrev pub Outcome {ℓ} :
    {S E A : Type ℓ} → (A → S → Type ℓ) → (E → S → Type ℓ) → Result E A → S → Type ℓ
Outcome Post Fail (ok a) s = Post a s
Outcome Post Fail (err e) s = Fail e s

module _ {ℓ} {W S : Type ℓ} (view : W → S) where
  pub record Hoare {C E A : Type ℓ} (Pre : S → Type ℓ) (Post : A → S → Type ℓ)
      (Fail : E → S → Type ℓ) (m : Act W C E A) : Type ℓ where
    pub at : (w : W) → Pre (view w) → Leaves view Post Fail (m w).0 (m w).2

module _ {ℓ} {W S C E A : Type ℓ} {view : W → S} {Pre : S → Type ℓ} {Post : A → S → Type ℓ}
    {Fail : E → S → Type ℓ} where
  pub Hoare-pure :
      (a : A) → ((s : S) → Pre s → Post a s) → Hoare view Pre Post Fail (pure {W = W} {C = C} a)
  unfolding pure
  Hoare-pure a h = record { at = λ w p. h (view w) p }

  pub Hoare-throw :
      (e : E) → ((s : S) → Pre s → Fail e s) → Hoare view Pre Post Fail (throw {W = W} {C = C} e)
  unfolding throw
  Hoare-throw e h = record { at = λ w p. h (view w) p }

  pub Hoare-call :
      (send : W → A × W) (entry : A → C)
      → ((w : W) → Pre (view w) → Post (send w).0 (view (send w).1))
      → Hoare view Pre Post Fail (call {E = E} send entry)
  unfolding call
  Hoare-call send entry h = record { at = λ w p. h w p }

  pub Hoare-if :
      (b : Bool) (m n : Act W C E A)
      → (b ≡ true → Hoare view Pre Post Fail m)
      → (b ≡ false → Hoare view Pre Post Fail n)
      → Hoare view Pre Post Fail (if b then m else n)
  Hoare-if true m n hm hn = hm refl
  Hoare-if false m n hm hn = hn refl

  -- A fact that the assumption holds may be used to choose the proof.
  pub Hoare-given :
      (m : Act W C E A)
      → ((s : S) → Pre s → Hoare view Pre Post Fail m)
      → Hoare view Pre Post Fail m
  Hoare-given m h = record { at = λ w p. (h (view w) p).at w p }

  pub Hoare-weaken :
      (Pre' : S → Type ℓ) (Post' : A → S → Type ℓ) (Fail' : E → S → Type ℓ) (m : Act W C E A)
      → Hoare view Pre' Post' Fail' m
      → ((s : S) → Pre s → Pre' s)
      → ((a : A) (s : S) → Post' a s → Post a s)
      → ((e : E) (s : S) → Fail' e s → Fail e s)
      → Hoare view Pre Post Fail m
  Hoare-weaken Pre' Post' Fail' m t hp hq hf = record {
    at = λ w p. leaves (m w).0 (m w).2 (t.at w (hp (view w) p));
  }
    where
      leaves : (r : Result E A) (w : W) → Leaves view Post' Fail' r w → Leaves view Post Fail r w
      leaves (ok a) w h = hq a (view w) h
      leaves (err e) w h = hf e (view w) h

module _ {ℓ} {W S C E A B : Type ℓ} {view : W → S} {Post : B → S → Type ℓ}
    {Fail : E → S → Type ℓ} where
  pub Hoare-bind :
      {Pre : S → Type ℓ} (Mid : A → S → Type ℓ) (m : Act W C E A) (f : A → Act W C E B)
      → Hoare view Pre Mid Fail m
      → ((a : A) → Hoare view (Mid a) Post Fail (f a))
      → Hoare view Pre Post Fail (m >>= f)
  unfolding ◌>>=◌ continue follow
  Hoare-bind Mid m f hm hf = record { at = λ w p. goes_on (m w).0 (m w).1 (m w).2 (hm.at w p) }
    where
      goes_on :
          (r : Result E A) (l : List C) (w : W)
          → Leaves view Mid Fail r w
          → Leaves view Post Fail (continue r l w f).0 (continue r l w f).2
      goes_on (ok a) l w h = (hf a).at w h
      goes_on (err e) l w h = h

-- The same rule with more assumed.
pub Hoare-assume {ℓ} :
    {W S C E A : Type ℓ} {view : W → S} {Pre Pre' : S → Type ℓ} {Post : A → S → Type ℓ}
    {Fail : E → S → Type ℓ} (m : Act W C E A)
    → Hoare view Pre' Post Fail m
    → ((s : S) → Pre s → Pre' s)
    → Hoare view Pre Post Fail m
Hoare-assume m t h = record { at = λ w p. t.at w (h _ p) }

-- A fact of the assumption that does not depend on the world.
pub Hoare-fact {ℓ} :
    {W S C E A : Type ℓ} {view : W → S} {Pre : S → Type ℓ} {Post : A → S → Type ℓ}
    {Fail : E → S → Type ℓ} (F : Type ℓ) (m : Act W C E A)
    → (F → Hoare view Pre Post Fail m)
    → Hoare view (λ s. F × Pre s) Post Fail m
Hoare-fact F m h = record { at = λ w p. (h p.0).at w p.1 }

pub Hoare-either {ℓ} :
    {W S C E A : Type ℓ} {view : W → S} {Pre Pre' : S → Type ℓ} {Post : A → S → Type ℓ}
    {Fail : E → S → Type ℓ} (m : Act W C E A)
    → Hoare view Pre Post Fail m
    → Hoare view Pre' Post Fail m
    → Hoare view (λ s. Pre s ⊎ Pre' s) Post Fail m
Hoare-either {W} {S} {C} {E} {A} {view} {Pre} {Pre'} {Post} {Fail} m h h' = record {
  at = λ w p. split w p;
}
  where
    split : (w : W) → Pre (view w) ⊎ Pre' (view w) → Leaves view Post Fail (m w).0 (m w).2
    split w (inl p) = h.at w p
    split w (inr p) = h'.at w p

pub Hoare-exists {ℓ} :
    {W S C E A X : Type ℓ} {view : W → S} {Pre : X → S → Type ℓ} {Post : A → S → Type ℓ}
    {Fail : E → S → Type ℓ} (m : Act W C E A)
    → ((x : X) → Hoare view (Pre x) Post Fail m)
    → Hoare view (λ s. (x : X) × Pre x s) Post Fail m
Hoare-exists m h = record { at = λ w p. (h p.0).at w p.1 }

-- What was thrown becomes a value, so nothing is thrown.
pub Hoare-attempt {ℓ} :
    {W S C E E' A : Type ℓ} {view : W → S} {Pre : S → Type ℓ} {Post : A → S → Type ℓ}
    {Fail : E → S → Type ℓ} {Fail' : E' → S → Type ℓ} (m : Act W C E A)
    → Hoare view Pre Post Fail m
    → Hoare view Pre (λ r s. Outcome Post Fail r s) Fail' (attempt m)
unfolding attempt
Hoare-attempt {W} {S} {C} {E} {E'} {A} {view} {Pre} {Post} {Fail} m h = record {
  at = λ w p. seen (m w).0 (m w).2 (h.at w p);
}
  where
    seen : (r : Result E A) (w : W) → Leaves view Post Fail r w → Outcome Post Fail r (view w)
    seen (ok a) w h = h
    seen (err e) w h = h
