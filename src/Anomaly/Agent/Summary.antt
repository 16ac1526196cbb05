-- ===== src/Anomaly/Agent/Summary.antt =====
-- What `detect_anomalies` of agent.py reports: every check ran, nothing raised, and the summary
-- agrees with the flagged results.
use mathlib.Core.List.{append-nil}
use aero_risk_ai.Base.{
  ℕ, ◌*◌, ◌≤◌, ◌<◌, ◌≡◌, refl, sym, ◌∙◌, ◌⊎◌, Bool, false, List, [], ◌∷◌, ◌++◌, arith, Bool-cases,
  inl, inr, ◌||◌,
}
use aero_risk_ai.Base.Lists.{All, any, length, select}
use aero_risk_ai.Base.Outcome.{ok}
use aero_risk_ai.Base.Float.{Float, FloatLaws, InUnit, ◌≼◌, ◌≺◌, max_f, lit-InUnit}
use aero_risk_ai.Models.Event.{OrderEvent}
use aero_risk_ai.Models.Anomaly.{AnomalyResult}
use aero_risk_ai.Anomaly.Velocity
use aero_risk_ai.Anomaly.Velocity.{micros}
use aero_risk_ai.Anomaly.Vwap
use aero_risk_ai.Anomaly.Vwap.History.{window_of}
use aero_risk_ai.Anomaly.WashTrade
use aero_risk_ai.Anomaly.Spoofing
use aero_risk_ai.Anomaly.Agent.{
  Agent1Anomaly, Findings, velocity_step, vwap_step, wash_step, spoofing_step, keep, max_from,
  max_severity, summarise, detect_anomalies,
}

module _ {F : Type 0} ⦃fl : Float F⦄ where
  abbrev pub flagged : AnomalyResult F → Bool
  flagged r = r.is_anomalous

  keep-eq :
      (rs : List (AnomalyResult F)) (r : AnomalyResult F)
      → keep rs r ≡ rs ++ select flagged (r ∷ [])
  unfolding keep
  keep-eq rs r = elim (Bool-cases r.is_anomalous) [
    | inl e ↦ rw e
    | inr e ↦ rw e (sym (append-nil rs))
  ]

  -- A result of the list has the severity.
  abbrev pub Attains : F → List (AnomalyResult F) → Type 0
  Attains m [] = ⊥
  Attains m (r ∷ rs) = (m ≡ r.severity_score) ⊎ Attains m rs

  max_from-Attains :
      (best : F) (rs : List (AnomalyResult F))
      → (max_from best rs ≡ best) ⊎ Attains (max_from best rs) rs
  unfolding max_from
  max_from-Attains best [] = inl refl
  max_from-Attains best (r ∷ rs) = elim (max_from-Attains (max_f best r.severity_score) rs) [
    | inr later ↦ inr (inr later)
    | inl now ↦ elim (Bool-cases (fl.lt best r.severity_score)) [
      | inl e ↦ inr (inl (now ∙ rw e refl))
      | inr e ↦ inl (now ∙ rw e refl)
    ]
  ]

  max_severity-Attains :
      (rs : List (AnomalyResult F))
      → ((rs ≡ []) × (max_severity rs ≡ fl.lit 0 1)) ⊎ Attains (max_severity rs) rs
  unfolding max_severity
  max_severity-Attains [] = inl (refl, refl)
  max_severity-Attains (r ∷ rs) = elim (max_from-Attains r.severity_score rs) [
    | inl e ↦ inr (inl e)
    | inr e ↦ inr (inr e)
  ]

  module _ (laws : FloatLaws F) where
    max_f-InUnit : (x y : F) → InUnit x → InUnit y → let m : F = max_f x y in InUnit m
    max_f-InUnit x y h k = elim (Bool-cases (fl.lt x y)) [ inl e ↦ rw e k | inr e ↦ rw e h ]

    max_f-le-left : (x y : F) → InUnit x → let m : F = max_f x y in x ≼ m
    max_f-le-left x y h = elim (Bool-cases (fl.lt x y)) [
      | inl e ↦ rw e (laws.lt_le x y e)
      | inr e ↦ rw e (laws.number_of_le x (fl.lit 1 1) h.1).0
    ]

    max_f-le-right : (x y : F) → InUnit x → InUnit y → let m : F = max_f x y in y ≼ m
    max_f-le-right x y h k =
        let nx = (laws.number_of_le x (fl.lit 1 1) h.1).0 in
        let ny = (laws.number_of_le y (fl.lit 1 1) k.1).0 in
        elim (Bool-cases (fl.lt x y)) [
          | inl e ↦ rw e ny
          | inr e ↦ rw e (laws.le_of_not_lt x y nx ny e)
        ]

    abbrev pub InRange : AnomalyResult F → Type 0
    InRange r = InUnit r.severity_score

    abbrev pub Below : F → AnomalyResult F → Type 0
    Below m r = r.severity_score ≼ m

    max_from-lem :
        (best : F) (rs : List (AnomalyResult F))
        → InUnit best
        → All InRange rs
        → InUnit (max_from best rs) × (best ≼ max_from best rs) × All (Below (max_from best rs)) rs
    unfolding max_from
    max_from-lem best [] h k = (h, (laws.number_of_le best (fl.lit 1 1) h.1).0, tt)
    max_from-lem best (r ∷ rs) h k =
        let s = r.severity_score in
        let (unit, above, below) = max_from-lem (max_f best s) rs (max_f-InUnit best s h k.0) k.1 in
        (
          unit,
          laws.le_trans best (max_f best s) (max_from (max_f best s) rs) (max_f-le-left best s h)
              above,
          (
            laws.le_trans s (max_f best s) (max_from (max_f best s) rs)
                (max_f-le-right best s h k.0) above,
            below,
          ),
        )

    max_severity-lem :
        (rs : List (AnomalyResult F))
        → All InRange rs
        → InUnit (max_severity rs) × All (Below (max_severity rs)) rs
    unfolding max_severity
    max_severity-lem [] h = (lit-InUnit laws 0 1 (omega arith) (omega arith), tt)
    max_severity-lem (r ∷ rs) h =
        let (unit, above, below) = max_from-lem r.severity_score rs h.0 h.1 in
        (unit, (above, below))

    select-All : (rs : List (AnomalyResult F)) → All InRange rs → All InRange (select flagged rs)
    select-All [] h = tt
    select-All (r ∷ rs) h = elim (Bool-cases r.is_anomalous) [
      | inl e ↦ rw e (h.0, select-All rs h.1)
      | inr e ↦ rw e (select-All rs h.1)
    ]

    keep-four :
        (a b c d : AnomalyResult F)
        → keep (keep (keep (keep [] a) b) c) d ≡ select flagged (a ∷ b ∷ c ∷ d ∷ [])
    unfolding keep
    keep-four a b c d = ground arith

  -- What the summary says of the results of the four checks.
  pub record Summarises (f : Findings F) (velocity vwap wash spoof : AnomalyResult F) : Type 0 where
    pub results : f.anomaly_results ≡ select flagged (velocity ∷ vwap ∷ wash ∷ spoof ∷ [])
    pub detected :
        f.anomaly_detected
        ≡ (velocity.is_anomalous || vwap.is_anomalous || wash.is_anomalous || spoof.is_anomalous)
    pub in_range : InUnit f.max_anomaly_severity
    pub largest :
        All (λ (r : AnomalyResult F). r.severity_score ≼ f.max_anomaly_severity) f.anomaly_results
    pub attained :
        ((f.anomaly_results ≡ []) × (f.max_anomaly_severity ≡ fl.lit 0 1))
        ⊎ Attains f.max_anomaly_severity f.anomaly_results

  module _ (laws : FloatLaws F) where
    summarise-Summarises :
        (e : OrderEvent F) (a b c d : AnomalyResult F)
        → InUnit a.severity_score
        → InUnit b.severity_score
        → InUnit c.severity_score
        → InUnit d.severity_score
        → Summarises (summarise e (keep (keep (keep (keep [] a) b) c) d)) a b c d
    unfolding summarise
    summarise-Summarises e a b c d ha hb hc hd =
        let all = select-All laws (a ∷ b ∷ c ∷ d ∷ []) (ha, (hb, (hc, (hd, tt)))) in
        let (unit, below) = max_severity-lem laws (select flagged (a ∷ b ∷ c ∷ d ∷ [])) all in
        rw (keep-four laws a b c d) (record {
          results = refl;
          detected = ground arith;
          in_range = unit;
          largest = below;
          attained = max_severity-Attains (select flagged (a ∷ b ∷ c ∷ d ∷ []));
        })

    -- With positive limits, a clock past the first window, and quotients of integers that floats
    -- hold, no check of the four raises, and the summary holds exactly the flagged results in the
    -- order of the checks, says that something was detected exactly when one of the four was flagged,
    -- and gives the largest severity of the results, in range, or 0.0 where there is none.
    pub detect_anomalies-ok :
        (agent : Agent1Anomaly F) (e : OrderEvent F) (utc : ℕ) (now : F)
        → 0 < agent.velocity_checker.max_orders_per_second
        → agent.velocity_checker.window_size * micros ≤ utc
        → fl.lit 0 1 ≺ agent.vwap_monitor.deviation_threshold
        → 0 < agent.wash_trade_detector.min_round_trips
        → let window = window_of (Vwap.key_of e.account_id e.symbol) agent.vwap_monitor in
          Vwap.Verdict.overflows laws e.price
              (Vwap.calculate_vwap window)
              (length (Vwap.push agent.vwap_monitor.lookback_periods window (Vwap.entry_of e)))
            ≡ false
          → any
              (WashTrade.Verdict.overflows e)
              (WashTrade.window_at agent.wash_trade_detector e now)
            ≡ false
          → Spoofing.Verdict.overflows_at laws agent.spoofing_detector e e.action ≡ false
          → (f : Findings F) × (velocity : AnomalyResult F) × (vwap : AnomalyResult F)
            × (wash : AnomalyResult F) × (spoof : AnomalyResult F) × ((detect_anomalies e utc now
                  agent).0
                ≡ ok f)
            × ((Velocity.check agent.velocity_checker e utc).0 ≡ ok velocity)
            × ((Vwap.check agent.vwap_monitor e).0 ≡ ok vwap)
            × ((WashTrade.check agent.wash_trade_detector e now).0 ≡ ok wash)
            × ((Spoofing.check agent.spoofing_detector e).0 ≡ ok spoof)
            × Summarises f velocity vwap wash spoof
    unfolding detect_anomalies velocity_step vwap_step wash_step spoofing_step
    detect_anomalies-ok agent e utc now limit past threshold trips pf wf sf =
        let (v, ev, uv, _, _, _) =
          Velocity.Verdict.velocity_check-verdict laws agent.velocity_checker e utc limit past in
        let (p, ep, jp) = vwap_ok in
        let (w, ew, uw) = wash_ok in
        let (s, es, js) = spoof_ok in
        (
          summarise e (keep (keep (keep (keep [] v) p) w) s),
          v,
          p,
          w,
          s,
          rw (ev, ep, ew, es),
          ev,
          ep,
          ew,
          es,
          summarise-Summarises e v p w s uv jp uw js,
        )
      where
        vwap_ok :
            (r : AnomalyResult F) × ((Vwap.check agent.vwap_monitor e).0 ≡ ok r)
            × InUnit r.severity_score
        vwap_ok = elim (Vwap.Verdict.vwap_check-verdict laws agent.vwap_monitor e threshold) [
          | inl (big, raised) ↦ cc
          | inr (fits, r, returned, judged) ↦ (r, returned, judged.in_range)
        ]

        wash_ok :
            (r : AnomalyResult F) × ((WashTrade.check agent.wash_trade_detector e now).0 ≡ ok r)
            × InUnit r.severity_score
        wash_ok =
            elim (WashTrade.Verdict.wash_check-verdict laws agent.wash_trade_detector e now trips) [
              | inl (big, raised) ↦ cc
              | inr (fits, r, returned, unit, flag, calm) ↦ (r, returned, unit)
            ]

        spoof_ok :
            (r : AnomalyResult F) × ((Spoofing.check agent.spoofing_detector e).0 ≡ ok r)
            × InUnit r.severity_score
        spoof_ok = elim (Spoofing.Verdict.spoofing_check-verdict laws agent.spoofing_detector e) [
          | inl (big, raised) ↦ cc
          | inr (fits, r, returned, judged) ↦ (r, returned, judged.in_range)
        ]
