-- ===== src/Effect/Protocol.antt =====
-- Which requests a routine may send, given what the replies so far have shown. A protocol is a state
-- machine over the entries: `Allowed g c` says that the entry c may come in the state g, `observe`
-- gives the next state. `Triple` states what holds before a routine, after it returns and after it
-- throws, with every request on the way allowed; there is one rule for each way to build a routine.
use etkin_link.Base.{
  ◌≡◌, refl, Bool, true, false, Option, none, some, List, [], ◌∷◌, ◌++◌, map, if◌then◌else◌,
}
use etkin_link.Effect.{
  Result, ok, err, Act, pure, throw, call, throw_none, attempt, follow, continue, ◌>>=◌, throw_if,
  relabel,
}

module _ {ℓ} {G C : Type ℓ} (Allowed : G → C → Type ℓ) (observe : G → C → G) where
  abbrev pub Follows : G → List C → Type ℓ
  Follows g [] = Unit
  Follows g (c ∷ cs) = Allowed g c × Follows (observe g c) cs

abbrev pub after {ℓ} : {G C : Type ℓ} → (G → C → G) → G → List C → G
after observe g [] = g
after observe g (c ∷ cs) = after observe (observe g c) cs

abbrev pub Ends {ℓ} :
    {G E A : Type ℓ} → (A → G → Type ℓ) → (E → G → Type ℓ) → Result E A → G → Type ℓ
Ends Post Fail (ok a) g = Post a g
Ends Post Fail (err e) g = Fail e g

module _ {ℓ} {G C : Type ℓ} (Allowed : G → C → Type ℓ) (observe : G → C → G) where
  pub record Triple {W E A : Type ℓ} (Pre : G → Type ℓ) (Post : A → G → Type ℓ)
      (Fail : E → G → Type ℓ) (m : Act W C E A) : Type ℓ where
    pub at :
        (w : W) (g : G)
        → Pre g
        → Follows Allowed observe g (m w).1 × Ends Post Fail (m w).0 (after observe g (m w).1)

-- A list of entries is allowed if its two halves are, the second from where the first ends.
module _ {ℓ} {G C : Type ℓ} (Allowed : G → C → Type ℓ) (observe : G → C → G) where
  Follows-append :
      (xs ys : List C) (g : G)
      → Follows Allowed observe g xs
      → Follows Allowed observe (after observe g xs) ys
      → Follows Allowed observe g (xs ++ ys)
  Follows-append [] ys g hx hy = hy
  Follows-append (x ∷ xs) ys g hx hy = (hx.0, Follows-append xs ys (observe g x) hx.1 hy)

module _ {ℓ} {G C : Type ℓ} (observe : G → C → G) where
  after-append :
      (xs ys : List C) (g : G) → after observe g (xs ++ ys) ≡ after observe (after observe g xs) ys
  after-append [] ys g = refl
  after-append (x ∷ xs) ys g = after-append xs ys (observe g x)

module _ {ℓ} {G C : Type ℓ} {Allowed : G → C → Type ℓ} {observe : G → C → G} {W E A : Type ℓ}
    {Pre : G → Type ℓ} {Post : A → G → Type ℓ} {Fail : E → G → Type ℓ} where
  pub Triple-pure :
      (a : A) → ((g : G) → Pre g → Post a g) → Triple Allowed observe Pre Post Fail (pure {W = W} a)
  unfolding pure
  Triple-pure a h = record { at = λ w g p. (tt, h g p) }

  pub Triple-throw :
      (e : E)
      → ((g : G) → Pre g → Fail e g)
      → Triple Allowed observe Pre Post Fail (throw {W = W} e)
  unfolding throw
  Triple-throw e h = record { at = λ w g p. (tt, h g p) }

  pub Triple-throw_none :
      (e : E) (o : Option A)
      → ((g : G) → Pre g → o ≡ none → Fail e g)
      → ((a : A) (g : G) → Pre g → o ≡ some a → Post a g)
      → Triple Allowed observe Pre Post Fail (throw_none {W = W} e o)
  unfolding throw_none
  Triple-throw_none e none hn hs = record { at = λ w g p. (tt, hn g p refl) }
  Triple-throw_none e (some a) hn hs = record { at = λ w g p. (tt, hs a g p refl) }

  -- A request whose reply is known to satisfy `Reply`.
  pub Triple-call :
      (Reply : A → Type ℓ) (send : W → A × W) (entry : A → C)
      → ((w : W) → Reply (send w).0)
      → ((a : A) (g : G) → Reply a → Pre g → Allowed g (entry a) × Post a (observe g (entry a)))
      → Triple Allowed observe Pre Post Fail (call send entry)
  unfolding call
  Triple-call Reply send entry good h = record {
    at = λ w g p. let (one, post) = h (send w).0 g (good w) p in ((one, tt), post);
  }

  pub Triple-if :
      (b : Bool) (m n : Act W C E A)
      → (b ≡ true → Triple Allowed observe Pre Post Fail m)
      → (b ≡ false → Triple Allowed observe Pre Post Fail n)
      → Triple Allowed observe Pre Post Fail (if b then m else n)
  Triple-if true m n hm hn = hm refl
  Triple-if false m n hm hn = hn refl

  -- A fact that the assumption holds may be used to choose the proof.
  pub Triple-given :
      (m : Act W C E A)
      → ((g : G) → Pre g → Triple Allowed observe Pre Post Fail m)
      → Triple Allowed observe Pre Post Fail m
  Triple-given m h = record { at = λ w g p. (h g p).at w g p }

  -- What is assumed may be more, what is concluded may be less.
  pub Triple-weaken :
      (Pre' : G → Type ℓ) (Post' : A → G → Type ℓ) (Fail' : E → G → Type ℓ) (m : Act W C E A)
      → Triple Allowed observe Pre' Post' Fail' m
      → ((g : G) → Pre g → Pre' g)
      → ((a : A) (g : G) → Post' a g → Post a g)
      → ((e : E) (g : G) → Fail' e g → Fail e g)
      → Triple Allowed observe Pre Post Fail m
  Triple-weaken Pre' Post' Fail' m t hp hq hf = record {
    at = λ w g p.
        let (sent, last) = t.at w g (hp g p) in
        (sent, Ends-map (m w).0 (after observe g (m w).1) last);
  }
    where
      Ends-map : (r : Result E A) (g : G) → Ends Post' Fail' r g → Ends Post Fail r g
      Ends-map (ok a) g h = hq a g h
      Ends-map (err e) g h = hf e g h

  pub Triple-attempt :
      {E' : Type ℓ} {Fail' : E' → G → Type ℓ} (m : Act W C E A)
      → Triple Allowed observe Pre Post Fail m
      → Triple Allowed observe Pre (λ r g. Ends Post Fail r g) Fail' (attempt m)
  unfolding attempt
  Triple-attempt m t = record { at = λ w g p. t.at w g p }

module _ {ℓ} {G C : Type ℓ} {Allowed : G → C → Type ℓ} {observe : G → C → G} {W E A B : Type ℓ}
    {Post : B → G → Type ℓ} {Fail : E → G → Type ℓ} where
  Triple-continue :
      (Mid : A → G → Type ℓ) (f : A → Act W C E B)
      → ((a : A) → Triple Allowed observe (Mid a) Post Fail (f a))
      → (r : Result E A) (l : List C) (w : W) (g : G) → Follows Allowed observe g l
      → Ends Mid Fail r (after observe g l)
      → Follows Allowed observe g (continue r l w f).1
        × Ends Post Fail (continue r l w f).0 (after observe g (continue r l w f).1)
  unfolding continue follow
  Triple-continue Mid f hf (ok a) l w g sent mid =
      let (later, last) = (hf a).at w (after observe g l) mid in
      (
        Follows-append Allowed observe l (f a w).1 g sent later,
        rw (after-append observe l (f a w).1 g) last,
      )
  Triple-continue Mid f hf (err e) l w g sent bad = (sent, bad)

  -- The rule for a sequence: `Mid` holds of the first answer.
  pub Triple-bind :
      {Pre : G → Type ℓ} (Mid : A → G → Type ℓ) (m : Act W C E A) (f : A → Act W C E B)
      → Triple Allowed observe Pre Mid Fail m
      → ((a : A) → Triple Allowed observe (Mid a) Post Fail (f a))
      → Triple Allowed observe Pre Post Fail (m >>= f)
  unfolding ◌>>=◌
  Triple-bind Mid m f hm hf = record {
    at = λ w g p.
        let (sent, mid) = hm.at w g p in
        Triple-continue Mid f hf (m w).0 (m w).1 (m w).2 g sent mid;
  }

module _ {ℓ} {G C : Type ℓ} {Allowed : G → C → Type ℓ} {observe : G → C → G} {W E : Type ℓ}
    {Pre : G → Type ℓ} {Fail : E → G → Type ℓ} where
  -- After a guard the test is known to have failed.
  pub Triple-throw_if :
      (b : Bool) (e : E)
      → ((g : G) → Pre g → b ≡ true → Fail e g)
      → Triple Allowed observe Pre (λ _ g. Pre g × (b ≡ false)) Fail (throw_if {W = W} b e)
  unfolding throw_if throw pure
  Triple-throw_if true e h = record { at = λ w g p. (tt, h g p refl) }
  Triple-throw_if false e h = record { at = λ w g p. (tt, (p, refl)) }

module _ {ℓ} {G C C' : Type ℓ} (observe : G → C' → G) (f : C → C')
    (unseen : (g : G) (c : C) → observe g (f c) ≡ g) where
  after-map : (cs : List C) (g : G) → after observe g (map f cs) ≡ g
  after-map [] g = refl
  after-map (c ∷ cs) g = rw (unseen g c, after) (after-map cs g)

  module _ (Allowed : G → C' → Type ℓ) (Pre : G → Type ℓ)
      (allowed : (g : G) (c : C) → Pre g → Allowed g (f c)) where
    Follows-map : (cs : List C) (g : G) → Pre g → Follows Allowed observe g (map f cs)
    Follows-map [] g p = tt
    Follows-map (c ∷ cs) g p = (allowed g c p, rw (unseen g c, Follows) (Follows-map cs g p))

module _ {ℓ} {G E A : Type ℓ} (Pre : G → Type ℓ) where
  Ends-same : (r : Result E A) (g : G) → Pre g → Ends (λ _ g. Pre g) (λ _ g. Pre g) r g
  Ends-same (ok a) g p = p
  Ends-same (err e) g p = p

-- A routine inside a larger one: its requests are allowed in the states that matter and change none.
module _ {ℓ} {G C C' : Type ℓ} {Allowed : G → C' → Type ℓ} {observe : G → C' → G}
    {W E A : Type ℓ} where
  pub Triple-relabel :
      (f : C → C') (Pre : G → Type ℓ)
      → ((g : G) (c : C) → Pre g → Allowed g (f c))
      → ((g : G) (c : C) → observe g (f c) ≡ g)
      → (m : Act W C E A) → Triple Allowed observe Pre (λ _ g. Pre g) (λ _ g. Pre g) (relabel f m)
  unfolding relabel
  Triple-relabel f Pre allowed unseen m = record {
    at = λ w g p. (
      Follows-map observe f unseen Allowed Pre allowed (m w).1 g p,
      rw (after-map observe f unseen (m w).1 g) (Ends-same Pre (m w).0 g p),
    );
  }
