-- ===== src/Anomaly/Vwap/Bounds.antt =====
-- The average price of vwap_monitor.py lies between the lowest and the highest price.
use aero_risk_ai.Base.{
  ℕ, zero, suc, ◌+◌, ◌*◌, ◌/◌, ◌-◌, ◌≤◌, ◌<◌, ◌⊎◌, ◌≡◌, refl, inl, inr, false, List, [], ◌∷◌, arith,
  leb, Bool-cases,
}
use aero_risk_ai.Base.Int.{
  ℤ, pos, negsuc, pos_part, neg_part, sub_ℕ, ◌+ℤ◌, ◌*ℤ◌, ◌≤ℤ◌, eqb_ℤ, floor_div,
}
use aero_risk_ai.Base.Lists.{All}
use aero_risk_ai.Anomaly.Vwap.{VwapEntry, total_value, total_volume, calculate_vwap}

le-div : (d v n : ℕ) → d * suc n ≤ v → d ≤ v / suc n
le-div d v n h = grind arith

div-le : (d v n : ℕ) → v ≤ d * suc n → v / suc n ≤ d
div-le d v n h = grind arith

-- One of two numbers is the other and a difference.
apart : (a b : ℕ) → ((d : ℕ) × (a ≡ b + d)) ⊎ ((d : ℕ) × (b ≡ a + suc d))
apart a b = elim (Bool-cases (leb b a)) [
  | inl e ↦ inl (a - b, ground arith)
  | inr e ↦ inr (b - a - 1, ground arith)
]

distribute : (a b q : ℕ) → (a + b) * q ≡ a * q + b * q
distribute a b q = grind arith

div-lower : (l m k n : ℕ) → l * suc n ≤ m + k * suc n → l ≤ m / suc n + k
div-lower l m k n h = elim (apart l k) [
  | inl (d, e) ↦
      let split : l * suc n ≡ k * suc n + d * suc n = rw e (distribute k d (suc n)) in
      let part = le-div d m n (omega (arith, split, h)) in omega (arith, e, part)
  | inr (d, e) ↦ omega (arith, e)
]

div-upper : (m k h n : ℕ) → m + k * suc n ≤ h * suc n → m / suc n + k ≤ h
div-upper m k h n p = elim (apart h k) [
  | inl (d, e) ↦
      let split : h * suc n ≡ k * suc n + d * suc n = rw e (distribute k d (suc n)) in
      let part = div-le d m n (omega (arith, split, p)) in omega (arith, e, part)
  | inr (d, e) ↦
      let split : k * suc n ≡ h * suc n + suc d * suc n = rw e (distribute h (suc d) (suc n)) in
      absurd (grind (arith, split, p))
]

negsuc-lower : (l m k n : ℕ) → l * suc n + suc m ≤ k * suc n → l + suc (m / suc n) ≤ k
negsuc-lower l m k n h = elim (apart k l) [
  | inl (zero, e) ↦
      let same : k * suc n ≡ l * suc n = rw (e, distribute l zero (suc n)) (omega arith) in
      absurd (omega (arith, same, h))
  | inl (suc d, e) ↦
      let split : k * suc n ≡ l * suc n + suc d * suc n = rw e (distribute l (suc d) (suc n)) in
      let below : m < suc d * suc n = omega (arith, split, h) in
      let part : m / suc n < suc d = grind arith in omega (arith, e, part)
  | inr (d, e) ↦
      let split : l * suc n ≡ k * suc n + suc d * suc n = rw e (distribute k (suc d) (suc n)) in
      absurd (omega (arith, split, h))
]

negsuc-upper : (m k h n : ℕ) → k * suc n ≤ h * suc n + suc m → k ≤ h + suc (m / suc n)
negsuc-upper m k h n p = elim (apart k h) [
  | inl (d, e) ↦
      let split : k * suc n ≡ h * suc n + d * suc n = rw e (distribute h d (suc n)) in
      let part = le-div d (suc m) n (omega (arith, split, p)) in
      let next : suc m / suc n ≤ suc (m / suc n) =
        div-le (suc (m / suc n)) (suc m) n (grind arith) in
      omega (arith, e, part, next)
  | inr (d, e) ↦ omega (arith, e)
]

scale : (a b c d q : ℕ) → a + b ≤ c + d → a * q + b * q ≤ c * q + d * q
scale a b c d zero h = omega arith
scale a b c d (suc q) h = grind (arith, scale a b c d q h)

sub-parts : (a b : ℕ) → pos_part (sub_ℕ a b) + b ≡ neg_part (sub_ℕ a b) + a
sub-parts a b = elim (Bool-cases (leb b a)) [
  | inl e ↦ rw e (ground arith)
  | inr e ↦ rw e (ground arith)
]

-- A bound l - k of a price u - v, and of n shares at a total of vp - vm, is one of n + q shares.
total-bound :
    (l k u v q n pp pm vp vm sp sm : ℕ)
    → l + v ≤ u + k
    → pp + v * q ≡ pm + u * q
    → l * n + vm ≤ vp + k * n
    → sp + (pm + vm) ≡ sm + (pp + vp)
    → l * (q + n) + sm ≤ sp + k * (q + n)
total-bound l k u v q n pp pm vp vm sp sm price product total sum =
    let scaled = scale l v u k q price in grind arith

-- The total value of `n` shares lies between `n` times the bounds.
abbrev IsTotal : ℤ → ℤ → ℕ → ℤ → Type 0
IsTotal lo hi n v =
    (pos_part lo * n + neg_part v ≤ pos_part v + neg_part lo * n)
    × (neg_part hi * n + pos_part v ≤ neg_part v + pos_part hi * n)

add-IsTotal :
    (lo hi p v : ℤ) (q n : ℕ)
    → lo ≤ℤ p
    → p ≤ℤ hi
    → IsTotal lo hi n v
    → IsTotal lo hi (q + n) (p *ℤ pos q +ℤ v)
add-IsTotal lo hi p v q n low high (a, b) =
    let product = p *ℤ pos q in
    let parts : pos_part product + neg_part p * q ≡ neg_part product + pos_part p * q =
      omega
        (arith, sub-parts (pos_part p * q + neg_part p * 0) (pos_part p * 0 + neg_part p * q)) in
    let sum = sub-parts (pos_part product + pos_part v) (neg_part product + neg_part v) in
    (
      total-bound (pos_part lo) (neg_part lo) (pos_part p) (neg_part p) q n (pos_part product)
          (neg_part product) (pos_part v) (neg_part v) (pos_part (product +ℤ v))
          (neg_part (product +ℤ v)) low parts a sum,
      total-bound (neg_part hi) (pos_part hi) (neg_part p) (pos_part p) q n (neg_part product)
          (pos_part product) (neg_part v) (pos_part v) (neg_part (product +ℤ v))
          (pos_part (product +ℤ v)) (omega (arith, high)) (omega (arith, parts)) b
          (omega (arith, sum)),
    )

floor-between :
    (lo hi v : ℤ) (n : ℕ)
    → IsTotal lo hi (suc n) v
    → (lo ≤ℤ floor_div v (pos (suc n))) × (floor_div v (pos (suc n)) ≤ℤ hi)
floor-between lo hi (pos m) n (a, b) = (
  omega (arith, div-lower (pos_part lo) m (neg_part lo) n (omega (arith, a))),
  omega (arith, div-upper m (neg_part hi) (pos_part hi) n (omega (arith, b))),
)
floor-between lo hi (negsuc m) n (a, b) = (
  omega (arith, negsuc-lower (pos_part lo) m (neg_part lo) n (omega (arith, a))),
  omega (arith, negsuc-upper m (neg_part hi) (pos_part hi) n (omega (arith, b))),
)

module _ {F : Type 0} where
  -- A price between two bounds, and a quantity that is not negative.
  abbrev pub Between : ℤ → ℤ → VwapEntry F → Type 0
  Between lo hi e = (q : ℕ) × (e.quantity ≡ pos q) × (lo ≤ℤ e.price) × (e.price ≤ℤ hi)

  totals :
      (lo hi : ℤ) (es : List (VwapEntry F))
      → All (Between lo hi) es
      → (n : ℕ) × (total_volume es ≡ pos n) × IsTotal lo hi n (total_value es)
  unfolding total_value total_volume
  totals lo hi [] h = (0, refl, (omega arith, omega arith))
  totals lo hi (e ∷ es) ((q, eq, l, u), h) =
      let (n, en, t) = totals lo hi es h in
      (
        q + n,
        rw (eq, en) (ground arith),
        rw eq (add-IsTotal lo hi e.price (total_value es) q n l u t),
      )

  -- For quantities that are not negative and a volume that is not zero, the average price is no
  -- lower than the lowest price and no higher than the highest; prices may be negative.
  pub calculate_vwap-Between :
      (lo hi : ℤ) (es : List (VwapEntry F))
      → All (Between lo hi) es
      → eqb_ℤ (total_volume es) (pos 0) ≡ false
      → (lo ≤ℤ calculate_vwap es) × (calculate_vwap es ≤ℤ hi)
  unfolding calculate_vwap
  calculate_vwap-Between lo hi [] h vol = absurd (unfold total_volume in cc)
  calculate_vwap-Between lo hi (e ∷ es) h vol = average (totals lo hi (e ∷ es) h)
    where
      average :
          (n : ℕ) × (total_volume (e ∷ es) ≡ pos n) × IsTotal lo hi n (total_value (e ∷ es))
          → (lo ≤ℤ calculate_vwap (e ∷ es)) × (calculate_vwap (e ∷ es) ≤ℤ hi)
      average (zero, en, t) = absurd (ground arith)
      average (suc n, en, t) = rw vol (rw en (floor-between lo hi (total_value (e ∷ es)) n t))
