-- ===== src/Base/Exec.antt =====
-- Methods that mutate an object and may raise: the object comes back beside the outcome.
use aero_risk_ai.Base.Outcome.{Outcome, ok, err, Error}

abbrev pub Exec {ℓ} : Type ℓ → Type ℓ → Type ℓ
Exec S A = S → Outcome A × S

abbrev pub recover {ℓ} : {A : Type ℓ} → A → Outcome A → A
recover a (ok b) = b
recover a (err e) = a

module _ {ℓ} {S A : Type ℓ} where
  abbrev pub pure : A → Exec S A
  pure a s = (ok a, s)

  abbrev pub raise : Error → Exec S A
  raise e s = (err e, s)

  -- `try: return m` with a value for every exception; what was done before it stays done.
  abbrev pub attempt : Exec S A → A → Exec S A
  attempt m a s = let (r, s') = m s in (ok (recover a r), s')

  -- `try: return m` with another method for every exception.
  abbrev pub resume : Outcome A → Exec S A → Exec S A
  resume (ok a) k s = (ok a, s)
  resume (err e) k s = k s

  abbrev pub or_else : Exec S A → Exec S A → Exec S A
  or_else m k s = let (r, s') = m s in resume r k s'

  abbrev pub lift : Outcome A → Exec S A
  lift r s = (r, s)

module _ {ℓ} {S A B : Type ℓ} where
  abbrev pub continue : Outcome A → (A → Exec S B) → Exec S B
  continue (ok a) f s = f a s
  continue (err e) f s = (err e, s)

  infixl 5 ◌>>=◌ ◌>>◌
  abbrev pub ◌>>=◌ : Exec S A → (A → Exec S B) → Exec S B
  ◌>>=◌ m f s = let (r, s') = m s in continue r f s'

  abbrev pub ◌>>◌ : Exec S A → Exec S B → Exec S B
  m >> k = m >>= λ _. k

-- What holds of the value, where a method returns one.
abbrev pub After : {A : Type 0} → (A → Type 0) → Outcome A → Type 0
After P (ok a) = P a
After P (err e) = Unit

abbrev pub Returns : {W A : Type 0} → Exec W A → (A → Type 0) → Type 0
Returns {W} m P = (w : W) → After P ((m w).0)

module _ {W A B : Type 0} where
  After-continue :
      (P : A → Type 0) (Q : B → Type 0) (r : Outcome A) (f : A → Exec W B) (w : W)
      → After P r
      → ((a : A) → P a → Returns (f a) Q)
      → After Q ((continue r f w).0)
  After-continue P Q (ok a) f w h k = k a h w
  After-continue P Q (err e) f w h k = tt

  pub Returns-bind :
      (P : A → Type 0) (Q : B → Type 0) (m : Exec W A) (f : A → Exec W B)
      → Returns m P
      → ((a : A) → P a → Returns (f a) Q)
      → Returns (m >>= f) Q
  Returns-bind P Q m f h k w = After-continue P Q ((m w).0) f ((m w).1) (h w) k

  -- Nothing is known of what the first method returns.
  pub Returns-then :
      (Q : B → Type 0) (m : Exec W A) (f : A → Exec W B)
      → ((a : A) → Returns (f a) Q)
      → Returns (m >>= f) Q
  Returns-then Q m f k w = go ((m w).0) ((m w).1)
    where
      go : (r : Outcome A) (v : W) → After Q ((continue r f v).0)
      go (ok a) v = k a v
      go (err e) v = tt

-- The method returns, with a value and a state of which `P` holds.
abbrev pub Holds : {W A : Type 0} → Outcome A → W → (A → W → Type 0) → Type 0
Holds (ok a) w P = P a w
Holds (err e) w P = ⊥

abbrev pub Leads : {W A : Type 0} → Exec W A → W → (A → W → Type 0) → Type 0
Leads m w P = Holds ((m w).0) ((m w).1) P

module _ {W A B : Type 0} where
  pub Leads-bind :
      (P : A → W → Type 0) (Q : B → W → Type 0) (m : Exec W A) (f : A → Exec W B) (w : W)
      → Leads m w P
      → ((a : A) (v : W) → P a v → Leads (f a) v Q)
      → Leads (m >>= f) w Q
  Leads-bind P Q m f w h k = go ((m w).0) ((m w).1) h
    where
      go : (r : Outcome A) (v : W) → Holds r v P → Holds ((continue r f v).0) ((continue r f v).1) Q
      go (ok a) v p = k a v p
      go (err e) v p = elim p [ ]

  -- What holds of the state after a method whose last part may raise.
  pub Leads-last :
      (P : A → W → Type 0) (Q : W → Type 0) (m : Exec W A) (f : A → Exec W B) (w : W)
      → Leads m w P
      → ((a : A) (v : W) → P a v → Q ((f a v).1))
      → Q (((m >>= f) w).1)
  Leads-last P Q m f w h k = go ((m w).0) ((m w).1) h
    where
      go : (r : Outcome A) (v : W) → Holds r v P → Q ((continue r f v).1)
      go (ok a) v p = k a v p
      go (err e) v p = elim p [ ]

module _ {W A : Type 0} where
  -- What a method leads to is what the `try` around it leads to.
  pub Leads-attempt :
      (P : A → W → Type 0) (m : Exec W A) (a : A) (w : W) → Leads m w P → Leads (attempt m a) w P
  Leads-attempt P m a w h = go ((m w).0) ((m w).1) h
    where
      go : (r : Outcome A) (v : W) → Holds r v P → Holds (ok (recover a r)) v P
      go (ok b) v p = p
      go (err e) v p = elim p [ ]

-- The method returns, with a value and a state of which `P` holds, or it raises an error that `E`
-- allows.
abbrev pub Ended : {W A : Type 0} → (Error → Type 0) → Outcome A → W → (A → W → Type 0) → Type 0
Ended E (ok a) w P = P a w
Ended E (err e) w P = E e

abbrev pub Ends : {W A : Type 0} → (Error → Type 0) → Exec W A → W → (A → W → Type 0) → Type 0
Ends E m w P = Ended E ((m w).0) ((m w).1) P

module _ {W A B : Type 0} (E : Error → Type 0) where
  pub Ends-bind :
      (P : A → W → Type 0) (Q : B → W → Type 0) (m : Exec W A) (f : A → Exec W B) (w : W)
      → Ends E m w P
      → ((a : A) (v : W) → P a v → Ends E (f a) v Q)
      → Ends E (m >>= f) w Q
  Ends-bind P Q m f w h k = go ((m w).0) ((m w).1) h
    where
      go :
          (r : Outcome A) (v : W)
          → Ended E r v P
          → Ended E ((continue r f v).0) ((continue r f v).1) Q
      go (ok a) v p = k a v p
      go (err e) v p = p

-- The method leaves a state of which `P` holds, where it meets one, whatever its outcome.
abbrev pub Keeps : {W A : Type 0} → (W → Type 0) → Exec W A → Type 0
Keeps {W} P m = (w : W) → P w → P ((m w).1)

module _ {W A B : Type 0} where
  pub Keeps-bind :
      (P : W → Type 0) (m : Exec W A) (f : A → Exec W B)
      → Keeps P m
      → ((a : A) → Keeps P (f a))
      → Keeps P (m >>= f)
  Keeps-bind P m f h k w p = go ((m w).0) ((m w).1) (h w p)
    where
      go : (r : Outcome A) (v : W) → P v → P ((continue r f v).1)
      go (ok a) v q = k a v q
      go (err e) v q = q

-- Where the method returns, `P` holds of its value and of the state.
abbrev pub May : {W A : Type 0} → Outcome A → W → (A → W → Type 0) → Type 0
May (ok a) w P = P a w
May (err e) w P = Unit

abbrev pub Partial : {W A : Type 0} → Exec W A → W → (A → W → Type 0) → Type 0
Partial m w P = May ((m w).0) ((m w).1) P

module _ {W A B : Type 0} where
  pub Partial-bind :
      (P : A → W → Type 0) (Q : B → W → Type 0) (m : Exec W A) (f : A → Exec W B) (w : W)
      → Partial m w P
      → ((a : A) (v : W) → P a v → Partial (f a) v Q)
      → Partial (m >>= f) w Q
  Partial-bind P Q m f w h k = go ((m w).0) ((m w).1) h
    where
      go : (r : Outcome A) (v : W) → May r v P → May ((continue r f v).0) ((continue r f v).1) Q
      go (ok a) v p = k a v p
      go (err e) v p = tt

  pub Partial-lift :
      (Q : B → W → Type 0) (r : Outcome A) (f : A → Exec W B) (w : W)
      → ((a : A) → Partial (f a) w Q)
      → Partial (lift r >>= f) w Q
  Partial-lift Q (ok a) f w k = k a
  Partial-lift Q (err e) f w k = tt

module _ {W A : Type 0} where
  -- A method that returns, and leads to `P` where it returns, leads to `P`.
  pub Leads-Partial :
      (P : A → W → Type 0) (m : Exec W A) (w : W)
      → Leads m w (λ a v. Unit)
      → Partial m w P
      → Leads m w P
  Leads-Partial P m w h k = go ((m w).0) h k
    where
      go :
          (r : Outcome A)
          → Holds r ((m w).1) (λ a v. Unit)
          → May r ((m w).1) P
          → Holds r ((m w).1) P
      go (ok a) h p = p
      go (err e) h p = elim h [ ]

  pub Partial-weaken :
      (P Q : A → W → Type 0) (m : Exec W A) (w : W)
      → Partial m w P
      → ((a : A) (v : W) → P a v → Q a v)
      → Partial m w Q
  Partial-weaken P Q m w h k = go ((m w).0) h
    where
      go : (r : Outcome A) → May r ((m w).1) P → May r ((m w).1) Q
      go (ok a) p = k a ((m w).1) p
      go (err e) p = tt

module _ {W A : Type 0} (E : Error → Type 0) where
  pub Leads-Ends : (P : A → W → Type 0) (m : Exec W A) (w : W) → Leads m w P → Ends E m w P
  Leads-Ends P m w h = go ((m w).0) h
    where
      go : (r : Outcome A) → Holds r ((m w).1) P → Ended E r ((m w).1) P
      go (ok a) p = p
      go (err e) p = elim p [ ]

  -- A method that ends, and leads to `P` where it returns, ends with `P`.
  pub Ends-Partial :
      (P : A → W → Type 0) (m : Exec W A) (w : W)
      → Ends E m w (λ a v. Unit)
      → Partial m w P
      → Ends E m w P
  Ends-Partial P m w h k = go ((m w).0) h k
    where
      go :
          (r : Outcome A)
          → Ended E r ((m w).1) (λ a v. Unit)
          → May r ((m w).1) P
          → Ended E r ((m w).1) P
      go (ok a) h p = p
      go (err e) h p = h

-- A part of the state, which a method on it alone changes alone.
module _ {W R A : Type 0} where
  abbrev pub outside : Exec W A → Exec (W × R) A
  outside m s = ((m (s.0)).0, ((m (s.0)).1, s.1))

  abbrev pub inside : Exec R A → Exec (W × R) A
  inside m s = ((m (s.1)).0, (s.0, (m (s.1)).1))
