-- ===== src/Anomaly/Vwap/Verdict.antt =====
-- What `check` of vwap_monitor.py answers.
use aero_risk_ai.Base.{
  ℕ, ◌≡◌, refl, ◌⊎◌, Bool, true, false, not, ◌&&◌, arith, ltb, if◌then◌else◌, Bool-cases, inl, inr,
}
use aero_risk_ai.Base.Int.{ℤ, pos, eqb_ℤ, abs_ℤ, ◌-ℤ◌}
use aero_risk_ai.Base.Lists.{length}
use aero_risk_ai.Base.Outcome.{Outcome, ok, err, overflow}
use aero_risk_ai.Base.Float.{
  Float, FloatLaws, InUnit, ◌≺◌, min_f, lit-InUnit, min_f-InUnit, true_div-ok,
}
use aero_risk_ai.Models.Event.{OrderEvent}
use aero_risk_ai.Models.Anomaly.{AnomalyResult, new_result-ok}
use aero_risk_ai.Anomaly.Vwap.{
  VwapMonitor, key_of, entry_of, push, calculate_vwap, no_verdict, insufficient, severity, report,
  deviation_of, judge, check,
}
use aero_risk_ai.Anomaly.Vwap.History.{window_of}

module _ {F : Type 0} ⦃fl : Float F⦄ (laws : FloatLaws F) where
  abbrev pub severity_of : F → F → F
  severity_of threshold deviation =
      if fl.lt threshold deviation
      then min_f (fl.lit 1 1) (fl.div deviation threshold)
      else fl.lit 0 1

  severity-ok :
      (threshold deviation : F)
      → fl.is_finite deviation ≡ true
      → fl.lit 0 1 ≺ threshold
      → (severity threshold deviation ≡ ok (severity_of threshold deviation))
        × InUnit (severity_of threshold deviation)
  unfolding severity
  severity-ok t d f h = elim (Bool-cases (fl.lt t d)) [
    | inl e ↦ rw e (
        rw (true_div-ok laws d t h) (
          refl,
          min_f-InUnit laws (fl.div d t) (
              laws.div_nonneg d t f (laws.lt_le _ _ (laws.lt_le_trans _ _ _ h (laws.lt_le _ _ e)))
                h),
        ))
    | inr e ↦ rw e (refl, lit-InUnit laws 0 1 (omega arith) (omega arith))
  ]

  -- Whether the code compares at all: ten entries, and an average that is not zero.
  abbrev pub compares : ℕ → ℤ → Bool
  compares size vwap = not (ltb size 10) && not (eqb_ℤ vwap (pos 0))

  -- The answer for a price against the average of the earlier entries.
  pub record Judged (m : VwapMonitor F) (price vwap : ℤ) (size : ℕ) (r : AnomalyResult F)
      : Type 0 where
    pub in_range : InUnit r.severity_score
    pub flagged : r.is_anomalous ≡ (
        compares size vwap && fl.lt m.deviation_threshold (fl.div_int (abs_ℤ (price -ℤ vwap)) vwap))
    pub calm : r.is_anomalous ≡ false → r.severity_score ≡ fl.lit 0 1

  -- The quotient of the deviation is beyond the range of a float.
  abbrev pub overflows : ℤ → ℤ → ℕ → Bool
  overflows price vwap size =
      compares size vwap && not (fl.is_finite (fl.div_int (abs_ℤ (price -ℤ vwap)) vwap))

  -- An exception for a quotient that no float holds, or the answer.
  abbrev pub Answers : VwapMonitor F → ℤ → ℤ → ℕ → Outcome (AnomalyResult F) → Type 0
  Answers m price vwap size o =
      ((overflows price vwap size ≡ true) × (o ≡ err overflow))
      ⊎ ((overflows price vwap size ≡ false)
          × (r : AnomalyResult F) × (o ≡ ok r)
          × Judged m price vwap size r)

  judge-Answers :
      (m : VwapMonitor F) (e : OrderEvent F) (vwap : ℤ) (size : ℕ)
      → fl.lit 0 1 ≺ m.deviation_threshold
      → Answers m e.price vwap size (judge m e vwap size)
  unfolding judge insufficient no_verdict report deviation_of
  judge-Answers m e vwap size h =
      let zero_ok = lit-InUnit laws 0 1 (omega arith) (omega arith) in
      elim (Bool-cases (ltb size 10)) [
        | inl few ↦ inr (
          rw few refl,
          insufficient size,
          rw few (new_result-ok (insufficient size) zero_ok zero_ok),
          record { in_range = zero_ok; flagged = rw few; calm = λ _. refl },
        )
        | inr many ↦ elim (Bool-cases (eqb_ℤ vwap (pos 0))) [
          | inl z ↦ inr (
            rw (many, z) refl,
            no_verdict "zero_vwap",
            rw (many, z) (new_result-ok (no_verdict "zero_vwap") zero_ok zero_ok),
            record { in_range = zero_ok; flagged = rw (many, z); calm = λ _. refl },
          )
          | inr nz ↦
              let d : F = deviation_of e.price vwap in
              elim (Bool-cases (fl.is_finite (fl.div_int (abs_ℤ (e.price -ℤ vwap)) vwap))) [
                | inr big ↦ inl (rw (many, nz, big) refl, rw (many, nz, big) refl)
                | inl fits ↦
                    let (sok, unit) = severity-ok m.deviation_threshold d fits h in
                    inr (
                      rw (many, nz, fits) refl,
                      report m e vwap d (severity_of m.deviation_threshold d),
                      rw (many, nz, fits, sok)
                          (new_result-ok (report m e vwap d (severity_of m.deviation_threshold d))
                            unit (lit-InUnit laws 90 100 (omega arith) (omega arith))),
                      record { in_range = unit; flagged = rw (many, nz); calm = λ c. rw c },
                    )
              ]
        ]
      ]

  -- With a positive threshold `check` returns a result that pydantic accepts, or it raises
  -- OverflowError, exactly when it compares and the quotient of the deviation is beyond the range of
  -- a float. An event is flagged exactly when its window then holds ten entries, the average price of
  -- the entries before it is not zero, and the price deviates from that average by more than the
  -- threshold; the severity is in range, and 0.0 when the event is not flagged.
  pub vwap_check-verdict :
      (m : VwapMonitor F) (e : OrderEvent F)
      → fl.lit 0 1 ≺ m.deviation_threshold
      → let window = window_of (key_of e.account_id e.symbol) m in
        Answers m e.price
          (calculate_vwap window)
          (length (push m.lookback_periods window (entry_of e)))
          ((check m e).0)
  unfolding check
  vwap_check-verdict m e h =
      let window = window_of (key_of e.account_id e.symbol) m in
      judge-Answers m e (calculate_vwap window)
        (length (push m.lookback_periods window (entry_of e))) h
