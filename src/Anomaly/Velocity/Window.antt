-- ===== src/Anomaly/Velocity/Window.antt =====
-- The sliding window of velocity_check.py against the whole history of an account: lemmas on
-- `drop_old`, then the state after any sequence of events whose times do not go back.
use aero_risk_ai.Base.{
  ℕ, ◌≤◌, ◌≡◌, refl, Bool, List, [], ◌∷◌, ◌++◌, arith, ltb, leb, Bool-cases, inl, inr,
}
use aero_risk_ai.Base.Lists.{All, select, All-append}
use aero_risk_ai.Anomaly.Velocity.{drop_old}

-- Non-decreasing.
abbrev pub IsSorted : List ℕ → Type 0
IsSorted [] = Unit
IsSorted (t ∷ ts) = All (λ u. t ≤ u) ts × IsSorted ts

abbrev pub since : ℕ → ℕ → Bool
since k t = leb k t

pub select-since : (k : ℕ) (ts : List ℕ) → All (λ t. k ≤ t) ts → select (since k) ts ≡ ts
select-since k [] h = refl
select-since k (t ∷ ts) h = ground (arith, select-since k ts h.1)

All-le : (k j : ℕ) (ts : List ℕ) → k ≤ j → All (λ t. j ≤ t) ts → All (λ t. k ≤ t) ts
All-le k j [] le h = tt
All-le k j (t ∷ ts) le h = (omega arith, All-le k j ts le h.1)

pub All-ge : (k j : ℕ) (ts : List ℕ) → k ≤ j → All (λ t. t ≤ k) ts → All (λ t. t ≤ j) ts
All-ge k j [] le h = tt
All-ge k j (t ∷ ts) le h = (omega arith, All-ge k j ts le h.1)

-- On a sorted window popping the old front entries removes all old entries.
pub drop_old-eq-select : (k : ℕ) (ts : List ℕ) → IsSorted ts → drop_old k ts ≡ select (since k) ts
unfolding drop_old
drop_old-eq-select k [] h = refl
drop_old-eq-select k (t ∷ ts) h = elim (Bool-cases (ltb t k)) [
  | inl old ↦ ground (arith, drop_old-eq-select k ts h.1)
  | inr new ↦
      rw (select-since k (t ∷ ts) ((ground arith, All-le k t ts (ground arith) h.0))) (ground arith)
]

pub select-All {κ} : (P : ℕ → Type κ) (p : ℕ → Bool) (ts : List ℕ) → All P ts → All P (select p ts)
select-All P p [] h = tt
select-All P p (t ∷ ts) h = elim (Bool-cases (p t)) [
  | inl e ↦ rw e (h.0, select-All P p ts h.1)
  | inr e ↦ rw e (select-All P p ts h.1)
]

pub select-IsSorted : (p : ℕ → Bool) (ts : List ℕ) → IsSorted ts → IsSorted (select p ts)
select-IsSorted p [] h = tt
select-IsSorted p (t ∷ ts) h = elim (Bool-cases (p t)) [
  | inl e ↦ rw e (select-All (λ u. t ≤ u) p ts h.0, select-IsSorted p ts h.1)
  | inr e ↦ rw e (select-IsSorted p ts h.1)
]

pub snoc-IsSorted :
    (ts : List ℕ) (n : ℕ) → IsSorted ts → All (λ t. t ≤ n) ts → IsSorted (ts ++ n ∷ [])
snoc-IsSorted [] n h k = (tt, tt)
snoc-IsSorted (t ∷ ts) n h k =
    (All-append (λ u. t ≤ u) ts (n ∷ []) h.0 (k.0, tt), snoc-IsSorted ts n h.1 k.1)

-- A later cutoff after an earlier one is the later cutoff alone.
pub select-select :
    (j k : ℕ) (ts : List ℕ) → j ≤ k → select (since k) (select (since j) ts) ≡ select (since k) ts
select-select j k [] h = refl
select-select j k (t ∷ ts) h = ground (arith, select-select j k ts h)
