-- ===== src/Anomaly/Velocity/Verdict.antt =====
-- What `check` of velocity_check.py answers: it returns, its scores are in range, and it flags
-- exactly a rate beyond the limit.
use aero_risk_ai.Base.{
  ℕ, zero, suc, ◌*◌, ◌≤◌, ◌<◌, ◌≡◌, refl, ◌∙◌, false, List, arith, ltb, if◌then◌else◌, Bool-cases,
  inl, inr,
}
use aero_risk_ai.Base.Int.{pos}
use aero_risk_ai.Base.Lists.{length}
use aero_risk_ai.Base.Outcome.{ok}
use aero_risk_ai.Base.Float.{
  Float, FloatLaws, InUnit, ◌≼◌, max_f, min_f, lit-InUnit, one-refl, min_f-InUnit, max_f-pos,
  true_div-ok,
}
use aero_risk_ai.Models.Event.{OrderEvent}
use aero_risk_ai.Models.Anomaly.{AnomalyResult, new_result-ok}
use aero_risk_ai.Anomaly.Velocity.{
  VelocityChecker, micros, slide, time_span, order_rate, severity, report, judge, check,
}
use aero_risk_ai.Anomaly.Velocity.History.{window_of, get_or-opened}

module _ {F : Type 0} ⦃fl : Float F⦄ (laws : FloatLaws F) where
  time_span-number : (now : ℕ) (w : List ℕ) → let s : F = time_span now w in s ≼ s
  unfolding time_span
  time_span-number now w = elim (Bool-cases (ltb 1 (length w))) [
    | inl e ↦ rw e (laws.int_number _ _ (λ q. cc))
    | inr e ↦ rw e (one-refl laws)
  ]

  -- The rate of a window, as the float that the code computes.
  abbrev pub rate_of : ℕ → List ℕ → F
  rate_of now w = fl.div (fl.of_int (pos (length w))) (max_f (time_span now w) (fl.lit 1 1))

  order_rate-ok : (now : ℕ) (w : List ℕ) → order_rate now w ≡ ok (rate_of now w)
  unfolding order_rate
  order_rate-ok now w =
      true_div-ok laws _ _ (max_f-pos laws (time_span now w) (time_span-number now w))

  -- The severity of a rate against the limit, and its range.
  abbrev pub severity_of : ℕ → F → F
  severity_of limit rate =
      if fl.lt (fl.of_int (pos limit)) rate
      then min_f (fl.lit 1 1) (fl.sub (fl.div rate (fl.of_int (pos limit))) (fl.lit 1 1))
      else fl.lit 0 1

  severity-ok :
      (limit : ℕ) (rate : F)
      → 0 < limit
      → (severity limit rate ≡ ok (severity_of limit rate)) × InUnit (severity_of limit rate)
  unfolding severity
  severity-ok zero rate h = absurd (omega arith)
  severity-ok (suc l) rate h =
      let limit : F = fl.of_int (pos (suc l)) in
      elim (Bool-cases (fl.lt limit rate)) [
        | inl e ↦
            rw (e, laws.lt_finite limit rate (laws.lt_le _ _ (laws.int_pos l)) e)
              (rw (true_div-ok laws rate limit (laws.int_pos l)) (
                refl,
                min_f-InUnit laws _
                    (laws.sub_one_nonneg _ (laws.div_ge_one rate limit (laws.int_pos l) e)),
              ))
        | inr e ↦ rw e (refl, lit-InUnit laws 0 1 (omega arith) (omega arith))
      ]

  check-judge :
      (c : VelocityChecker) (e : OrderEvent F) (now : ℕ)
      → c.window_size * micros ≤ now
      → (check c e now).0 ≡ judge c e now (slide c.window_size now (window_of e.account_id c))
  check-judge c e now past =
      rw (← get_or-opened e.account_id e.account_id c.account_windows)
        (unfold check in ground arith)

  judge-ok :
      (c : VelocityChecker) (e : OrderEvent F) (now : ℕ) (w : List ℕ)
      → 0 < c.max_orders_per_second
      → judge c e now w
        ≡ ok (report c e w (rate_of now w) (severity_of c.max_orders_per_second (rate_of now w)))
  unfolding judge report
  judge-ok c e now w h =
      let (sok, unit) = severity-ok c.max_orders_per_second (rate_of now w) h in
      rw (order_rate-ok now w)
        (rw sok (new_result-ok _ unit (lit-InUnit laws 95 100 (omega arith) (omega arith))))

  -- With a positive limit and a clock past the first window, `check` returns: pydantic accepts the
  -- scores, no division raises, and the rate of the slid window decides. The event is flagged
  -- exactly when the rate is beyond the limit, the severity is 0.0 when it is not flagged, and
  -- BLOCK is advised exactly when the severity is beyond 0.5.
  pub velocity_check-verdict :
      (c : VelocityChecker) (e : OrderEvent F) (now : ℕ)
      → 0 < c.max_orders_per_second
      → c.window_size * micros ≤ now
      → let rate = rate_of now (slide c.window_size now (window_of e.account_id c)) in
        (r : AnomalyResult F) × ((check c e now).0 ≡ ok r)
        × InUnit r.severity_score
        × (r.is_anomalous ≡ fl.lt (fl.of_int (pos c.max_orders_per_second)) rate)
        × (r.is_anomalous ≡ false → r.severity_score ≡ fl.lit 0 1)
        × (r.recommendation ≡ (if fl.lt (fl.lit 5 10) r.severity_score then "BLOCK" else "FLAG"))
  unfolding report
  velocity_check-verdict c e now h past =
      let w = slide c.window_size now (window_of e.account_id c) in
      let rate : F = rate_of now w in
      (
        report c e w rate (severity_of c.max_orders_per_second rate),
        check-judge c e now past ∙ judge-ok c e now w h,
        (severity-ok c.max_orders_per_second rate h).1,
        refl,
        λ calm. rw calm,
        refl,
      )
