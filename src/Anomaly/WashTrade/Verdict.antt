-- ===== src/Anomaly/WashTrade/Verdict.antt =====
-- What `check` of wash_trade.py counts and answers.
use mathlib.Core.Path.{ap₂}
use mathlib.Core.List.{append-nil, append_assoc}
use aero_risk_ai.Base.{
  ℕ, zero, suc, ◌+◌, ◌*◌, ◌<◌, ◌≡◌, refl, sym, ap, ◌∙◌, ◌⊎◌, ◌&&◌, not, Bool, true, false, List, [],
  ◌∷◌, ◌++◌, arith, leb, if◌then◌else◌, Bool-cases, inl, inr,
}
use aero_risk_ai.Base.Int.{pos, ◌-ℤ◌, abs_ℤ, max_ℤ}
use aero_risk_ai.Base.Lists.{any, length, count, select}
use aero_risk_ai.Base.Outcome.{ok, err, overflow, ◌>>=◌}
use aero_risk_ai.Base.Float.{Float, finite, FloatLaws, InUnit, min_f, lit-InUnit, min_f-InUnit}
use aero_risk_ai.Models.Event.{OrderEvent, OrderSide, buy, sell, same_side}
use aero_risk_ai.Models.Anomaly.{AnomalyResult, new_result-ok}
use aero_risk_ai.Anomaly.WashTrade.{
  TradeRecord, WashTradeDetector, is_match, price_diff, scan, noted, severity, report, judge,
  window_at, check,
}

abbrev pub is_opposite : OrderSide → OrderSide → Bool
is_opposite buy sell = true
is_opposite sell buy = true
is_opposite _ _ = false

module _ {F : Type 0} ⦃fl : Float F⦄ where
  -- The difference of the prices as a part of the earlier one, which counts as one at least.
  abbrev pub relative_diff : OrderEvent F → TradeRecord F → F
  relative_diff e t = fl.div_int (abs_ℤ (t.price -ℤ e.price)) (max_ℤ t.price (pos 1))

  -- The other side, at a price less than 1% away.
  abbrev pub counters : OrderEvent F → TradeRecord F → Bool
  counters e t = is_opposite t.side e.side && fl.lt (relative_diff e t) (fl.lit 1 100)

  -- The other side, with a difference that no float holds.
  abbrev pub overflows : OrderEvent F → TradeRecord F → Bool
  overflows e t = is_opposite t.side e.side && not (fl.is_finite (relative_diff e t))

  is_match-eq :
      (e : OrderEvent F) (t : TradeRecord F)
      → is_match e t ≡ (if overflows e t then err overflow else ok (counters e t))
  unfolding is_match price_diff
  is_match-eq e t = sides t.side e.side
    where
      tail :
          (x : F)
          → (finite x >>= λ diff. ok (fl.lt diff (fl.lit 1 100)))
            ≡ (if not (fl.is_finite x) then err overflow else ok (fl.lt x (fl.lit 1 100)))
      tail x = elim (Bool-cases (fl.is_finite x)) [ inl a ↦ rw a refl | inr a ↦ rw a refl ]

      sides :
          (a b : OrderSide)
          → (if same_side a b
              then ok false
              else (finite (relative_diff e t) >>= λ diff. ok (fl.lt diff (fl.lit 1 100))))
            ≡ (if is_opposite a b && not (fl.is_finite (relative_diff e t))
                then err overflow
                else ok (is_opposite a b && fl.lt (relative_diff e t) (fl.lit 1 100)))
      sides buy buy = refl
      sides sell sell = refl
      sides buy sell = tail (relative_diff e t)
      sides sell buy = tail (relative_diff e t)

  -- The loop counts the trades that match, and collects them in order, unless one overflows.
  scan-eq :
      (e : OrderEvent F) (w : List (TradeRecord F)) (n : ℕ) (found : List (TradeRecord F))
      → scan e w n found ≡ (
          if any (overflows e) w
          then err overflow
          else ok (n + count (counters e) w, found ++ select (counters e) w))
  unfolding scan
  scan-eq e [] n found =
      ap₂ (λ (i : ℕ) (l : List (TradeRecord F)). ok (i, l)) (omega arith) (sym (append-nil found))
  scan-eq e (t ∷ w) n found = elim (Bool-cases (overflows e t)) [
    | inl big ↦ rw (is_match-eq e t, big) refl
    | inr fits ↦ elim (Bool-cases (counters e t)) [
      | inl hit ↦
          rw (is_match-eq e t, fits, hit)
            (scan-eq e w (n + 1) (found ++ t ∷ [])
              ∙ ap₂
                  (λ (i : ℕ) (l : List (TradeRecord F)).
                    if any (overflows e) w then err overflow else ok (i, l))
                  (omega arith) (append_assoc found (t ∷ []) (select (counters e) w)))
      | inr miss ↦
          rw (is_match-eq e t, fits, miss)
            (scan-eq e w n found
              ∙ ap
                  (λ (i : ℕ).
                    if any (overflows e) w
                    then err overflow
                    else ok (i, found ++ select (counters e) w))
                  (omega arith))
    ]
  ]

  pub scan-start :
      (e : OrderEvent F) (w : List (TradeRecord F))
      → scan e w 0 [] ≡ (
          if any (overflows e) w
          then err overflow
          else ok (count (counters e) w, select (counters e) w))
  scan-start e w =
      scan-eq e w 0 []
      ∙ ap (λ (i : ℕ). if any (overflows e) w then err overflow else ok (i, select (counters e) w))
          (omega arith)

  module _ (laws : FloatLaws F) where
    abbrev pub severity_of : ℕ → ℕ → F
    severity_of minimum trips =
        if leb minimum trips
        then min_f (fl.lit 1 1) (fl.div_int (pos trips) (pos (minimum * 2)))
        else fl.lit 0 1

    severity-ok :
        (minimum trips : ℕ)
        → 0 < minimum
        → (severity minimum trips ≡ ok (severity_of minimum trips))
          × InUnit (severity_of minimum trips)
    unfolding severity
    severity-ok zero trips h = absurd (omega arith)
    severity-ok (suc m) trips h = elim (Bool-cases (leb (suc m) trips)) [
      | inl e ↦ rw e (refl, min_f-InUnit laws _ (laws.int_nonneg trips (suc m * 2) (omega arith)))
      | inr e ↦ rw e (refl, lit-InUnit laws 0 1 (omega arith) (omega arith))
    ]

    judge-ok :
        (d : WashTradeDetector F) (e : OrderEvent F) (trips : ℕ) (found : List (TradeRecord F))
        → 0 < d.min_round_trips
        → judge d e (trips, found)
          ≡ ok (report d e trips (length found) (severity_of d.min_round_trips trips))
    unfolding judge report
    judge-ok d e trips found h =
        let (sok, unit) = severity-ok d.min_round_trips trips h in
        rw sok (new_result-ok _ unit (lit-InUnit laws 85 100 (omega arith) (omega arith)))

    -- With a positive minimum `check` returns, or it raises OverflowError, exactly when a trade of
    -- its window on the other side has a relative difference of the prices that no float holds. An
    -- event is flagged exactly when at least the minimum of the trades of its window are on the other
    -- side at a price less than 1% away; the severity is in range, and it is 0.0 when the event is
    -- not flagged.
    pub wash_check-verdict :
        (d : WashTradeDetector F) (e : OrderEvent F) (now : F)
        → 0 < d.min_round_trips
        → let window = window_at d e now in
          ((any (overflows e) window ≡ true) × ((check d e now).0 ≡ err overflow))
          ⊎ ((any (overflows e) window ≡ false)
              × (r : AnomalyResult F) × ((check d e now).0 ≡ ok r)
              × InUnit r.severity_score
              × (r.is_anomalous ≡ leb d.min_round_trips (count (counters e) window))
              × (r.is_anomalous ≡ false → r.severity_score ≡ fl.lit 0 1))
    unfolding check noted report
    wash_check-verdict d e now h =
        let w = window_at d e now in
        let trips = count (counters e) w in
        let found = select (counters e) w in
        elim (Bool-cases (any (overflows e) w)) [
          | inl big ↦ inl (big, rw (scan-start e w, big) refl)
          | inr fits ↦ inr (
            fits,
            report d e trips (length found) (severity_of d.min_round_trips trips),
            rw (scan-start e w, fits) (judge-ok d e trips found h),
            (severity-ok d.min_round_trips trips h).1,
            refl,
            λ calm. rw calm,
          )
        ]
