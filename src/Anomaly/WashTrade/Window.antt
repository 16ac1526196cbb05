-- ===== src/Anomaly/WashTrade/Window.antt =====
-- The `while` of wash_trade.py that pops old trades, on trades in the order of their times.
use aero_risk_ai.Base.{
  ◌≢◌, ◌<◌, ◌^◌, arith, ◌≡◌, refl, sym, ap, Bool, false, not, List, [], ◌∷◌, ◌++◌, Bool-cases, inl,
  inr,
}
use aero_risk_ai.Base.Int.{ℤ, pos, negsuc, ◌-ℤ◌, abs_ℤ, max_ℤ, magnitude}
use aero_risk_ai.Base.Lists.{All, any, select, All-append}
use aero_risk_ai.Models.Event.{OrderEvent}
use aero_risk_ai.Anomaly.WashTrade.Verdict.{overflows}
use aero_risk_ai.Base.Float.{Float, FloatLaws, ◌≼◌, ◌≺◌}
use aero_risk_ai.Anomaly.WashTrade.{TradeRecord, drop_old}

module _ {F : Type 0} ⦃fl : Float F⦄ where
  -- Not before the cutoff.
  abbrev pub is_fresh : F → TradeRecord F → Bool
  is_fresh c t = not (fl.lt t.timestamp c)

  abbrev pub IsSorted : List (TradeRecord F) → Type 0
  IsSorted [] = Unit
  IsSorted (t ∷ ts) = All (λ (u : TradeRecord F). t.timestamp ≼ u.timestamp) ts × IsSorted ts

  pub snoc-IsSorted :
      (ts : List (TradeRecord F)) (u : TradeRecord F)
      → IsSorted ts
      → All (λ (t : TradeRecord F). t.timestamp ≼ u.timestamp) ts
      → IsSorted (ts ++ u ∷ [])
  snoc-IsSorted [] u h k = (tt, tt)
  snoc-IsSorted (t ∷ ts) u h k = (
    All-append (λ (v : TradeRecord F). t.timestamp ≼ v.timestamp) ts (u ∷ []) h.0 (k.0, tt),
    snoc-IsSorted ts u h.1 k.1,
  )

  module _ (laws : FloatLaws F) where
    le_lt_trans : (x y z : F) → x ≼ y → y ≺ z → x ≺ z
    le_lt_trans x y z h k = elim (Bool-cases (fl.lt x z)) [
      | inl e ↦ e
      | inr e ↦
          let xn = (laws.number_of_le x y h).0 in
          let zn = (laws.number_of_le y z (laws.lt_le y z k)).1 in
          let back = laws.lt_le_trans y z x k (laws.le_of_not_lt x z xn zn e) in
          cc (laws.lt_not_le y x back)
    ]

    -- What an earlier cutoff dropped makes no difference to a later one.
    pub drop_old-drop_old :
        (c d : F) (xs ys : List (TradeRecord F))
        → c ≼ d
        → drop_old d (drop_old c xs ++ ys) ≡ drop_old d (xs ++ ys)
    unfolding drop_old
    drop_old-drop_old c d [] ys h = refl
    drop_old-drop_old c d (t ∷ ts) ys h = elim (Bool-cases (fl.lt t.timestamp c)) [
      | inl old ↦ rw (old, laws.lt_le_trans t.timestamp c d old h) (drop_old-drop_old c d ts ys h)
      | inr new ↦ rw new refl
    ]

    select-fresh :
        (c t : F) (ts : List (TradeRecord F))
        → fl.lt t c ≡ false
        → All (λ (u : TradeRecord F). t ≼ u.timestamp) ts
        → select (is_fresh c) ts ≡ ts
    select-fresh c t [] new h = refl
    select-fresh c t (u ∷ ts) new h = elim (Bool-cases (fl.lt u.timestamp c)) [
      | inl old ↦ cc (le_lt_trans t u.timestamp c h.0 old)
      | inr fresh ↦
          rw fresh (ap (λ (x : List (TradeRecord F)). u ∷ x) (select-fresh c t ts new h.1))
    ]

    pub drop_old-eq-select :
        (c : F) (ts : List (TradeRecord F)) → IsSorted ts → drop_old c ts ≡ select (is_fresh c) ts
    unfolding drop_old
    drop_old-eq-select c [] h = refl
    drop_old-eq-select c (t ∷ ts) h = elim (Bool-cases (fl.lt t.timestamp c)) [
      | inl old ↦ rw old (drop_old-eq-select c ts h.1)
      | inr new ↦
          rw new
            (ap (λ (x : List (TradeRecord F)). t ∷ x) (sym (select-fresh c t.timestamp ts new h.0)))
    ]

module _ {F : Type 0} ⦃fl : Float F⦄ where
  pub drop_old-All :
      (P : TradeRecord F → Type 0) (c : F) (ts : List (TradeRecord F))
      → All P ts
      → All P (drop_old c ts)
  unfolding drop_old
  drop_old-All P c [] h = tt
  drop_old-All P c (t ∷ ts) h = elim (Bool-cases (fl.lt t.timestamp c)) [
    | inl old ↦ rw old (drop_old-All P c ts h.1)
    | inr new ↦ rw new h
  ]

-- Prices whose differences a float holds.
abbrev pub IsSmall : ℤ → Type 0
IsSmall price = magnitude price < 2 ^ 62

diff-small : (a b : ℤ) → IsSmall a → IsSmall b → magnitude (abs_ℤ (a -ℤ b)) < 2 ^ 63
diff-small (pos a) (pos b) h k = ground arith
diff-small (pos a) (negsuc b) h k = ground arith
diff-small (negsuc a) (pos b) h k = ground arith
diff-small (negsuc a) (negsuc b) h k = ground arith

max-ne : (a : ℤ) → max_ℤ a (pos 1) ≢ pos 0
max-ne (pos a) h = ground arith
max-ne (negsuc a) h = ground arith

module _ {F : Type 0} ⦃fl : Float F⦄ (laws : FloatLaws F) where
  pub overflows-small :
      (e : OrderEvent F) (ts : List (TradeRecord F))
      → IsSmall e.price
      → All (λ (t : TradeRecord F). IsSmall t.price) ts
      → any (overflows e) ts ≡ false
  overflows-small e [] h k = refl
  overflows-small e (t ∷ ts) h k =
      let held =
        laws.quotient_finite (abs_ℤ (t.price -ℤ e.price)) (max_ℤ t.price (pos 1))
          (diff-small t.price e.price k.0 h) (max-ne t.price) in
      rw (held, overflows-small e ts h k.1) (ground arith)
