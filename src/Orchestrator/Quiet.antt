-- ===== src/Orchestrator/Quiet.antt =====
-- Methods on a state of two parts that leave the second part, Redis, as it is, whether they return
-- or raise.
use aero_risk_ai.Base.{◌≡◌, refl}
use aero_risk_ai.Base.Outcome.{Outcome, ok, err}
use aero_risk_ai.Base.Exec.{Exec, lift, outside, inside, continue, Partial, ◌>>=◌, May}

abbrev pub Stays : {W R A : Type 0} → R → (A → Type 0) → Outcome A → W × R → Type 0
Stays {W} {R} r P result v = (v.1 ≡ r) × May {W = W × R} result v (λ a x. P a)

abbrev pub Quiet : {W R A : Type 0} → R → (A → Type 0) → Exec (W × R) A → W × R → Type 0
Quiet r P m w = Stays r P ((m w).0) ((m w).1)

module _ {W R A : Type 0} where
  pub Quiet-outside :
      (r : R) (m : Exec W A) (w : W × R) → w.1 ≡ r → Quiet r (λ (a : A). Unit) (outside m) w
  Quiet-outside r m w h = (h, go ((m (w.0)).0))
    where
      go : (o : Outcome A) → May {W = W × R} o ((m (w.0)).1, w.1) (λ a x. Unit)
      go (ok a) = tt
      go (err e) = tt

  pub Quiet-Partial :
      (r : R) (P : A → Type 0) (m : Exec (W × R) A) (w : W × R)
      → Quiet r P m w
      → Partial m w (λ a v. (v.1 ≡ r) × P a)
  Quiet-Partial r P m w h = go ((m w).0) ((m w).1) h
    where
      go :
          (o : Outcome A) (v : W × R) → Stays r P o v → May {W = W × R} o v (λ a x. (x.1 ≡ r) × P a)
      go (ok a) v h = h
      go (err e) v h = tt

module _ {W R A : Type 0} where
  pub Partial-inside : (m : Exec R A) (w : W × R) → Partial (inside m) w (λ a v. v.1 ≡ (m (w.1)).1)
  Partial-inside m w = go ((m (w.1)).0)
    where
      go : (o : Outcome A) → May {W = W × R} o (w.0, (m (w.1)).1) (λ a v. v.1 ≡ (m (w.1)).1)
      go (ok a) = refl
      go (err e) = tt

module _ {W R A B : Type 0} where
  pub Quiet-bind :
      (r : R) (P : A → Type 0) (Q : B → Type 0) (m : Exec (W × R) A) (f : A → Exec (W × R) B)
      (w : W × R)
      → Quiet r P m w
      → ((a : A) (v : W × R) → v.1 ≡ r → P a → Quiet r Q (f a) v)
      → Quiet r Q (m >>= f) w
  Quiet-bind r P Q m f w h k = go ((m w).0) ((m w).1) h
    where
      go :
          (o : Outcome A) (v : W × R)
          → Stays r P o v
          → Stays r Q ((continue o f v).0) ((continue o f v).1)
      go (ok a) v (e, p) = k a v e p
      go (err e) v (q, p) = (q, tt)

  pub Quiet-lift :
      (r : R) (Q : B → Type 0) (o : Outcome A) (f : A → Exec (W × R) B) (w : W × R)
      → w.1 ≡ r
      → ((a : A) → Quiet r Q (f a) w)
      → Quiet r Q (lift o >>= f) w
  Quiet-lift r Q (ok a) f w h k = k a
  Quiet-lift r Q (err e) f w h k = (h, tt)
