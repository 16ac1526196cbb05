-- ===== src/Anomaly/Vwap.antt =====
-- ai_guardrail/aerorisk/agents/agent1_anomaly/vwap_monitor.py. The windows are deques with a
-- maximal length, kept by the text "account:symbol".
pub mod Bounds
pub mod Verdict
pub mod History
use aero_risk_ai.Base.{
  ℕ, suc, ◌+◌, ◌-◌, concat, false, ◌*◌, String, Bool, Option, none, some, List, [], ◌∷◌, ◌++◌, ltb,
  leb, if◌then◌else◌,
}
use aero_risk_ai.Base.Int.{ℤ, pos, ◌+ℤ◌, ◌-ℤ◌, ◌*ℤ◌, abs_ℤ, eqb_ℤ, floor_div}
use aero_risk_ai.Base.Lists.{length, drop}
use aero_risk_ai.Base.Dict.{Dict, lookup, insert, get_or, contains}
use aero_risk_ai.Base.Outcome.{Outcome, ok, err, ◌>>=◌}
use aero_risk_ai.Base.Float.{Float, finite, min_f, true_div}
use aero_risk_ai.Base.Value.{fields, str, float, int}
use aero_risk_ai.Models.Event.{OrderEvent}
use aero_risk_ai.Models.Anomaly.{AnomalyResult, vwap_deviation, new_result}

pub record VwapEntry (F : Type 0) : Type 0 where
  pub price : ℤ
  pub quantity : ℤ
  pub timestamp : F

pub record VwapMonitor (F : Type 0) : Type 0 where
  pub lookback_periods : ℕ
  pub deviation_threshold : F
  pub vwap_windows : Dict (List (VwapEntry F))

-- f"{account_id}:{symbol}"
abbrev pub key_of : String → String → String
key_of account symbol = concat account (concat ":" symbol)

module _ {F : Type 0} where
  unfoldable pub total_value : List (VwapEntry F) → ℤ
  total_value [] = pos 0
  total_value (e ∷ es) = e.price *ℤ e.quantity +ℤ total_value es

  unfoldable pub total_volume : List (VwapEntry F) → ℤ
  total_volume [] = pos 0
  total_volume (e ∷ es) = e.quantity +ℤ total_volume es

  unfoldable pub calculate_vwap : List (VwapEntry F) → ℤ
  calculate_vwap [] = pos 0
  calculate_vwap (e ∷ es) =
      let volume = total_volume (e ∷ es) in
      if eqb_ℤ volume (pos 0) then pos 0 else floor_div (total_value (e ∷ es)) volume

  unfoldable pub entry_of : OrderEvent F → VwapEntry F
  entry_of event = record {
    price = event.price;
    quantity = event.quantity;
    timestamp = event.timestamp;
  }

  -- `append` on `deque(maxlen=n)` drops entries at the front beyond the maximal length.
  unfoldable pub push : ℕ → List (VwapEntry F) → VwapEntry F → List (VwapEntry F)
  push n window e = drop (length window + 1 - n) (window ++ e ∷ [])

module _ {F : Type 0} ⦃fl : Float F⦄ where
  -- The answer when there is not enough to compare with.
  pub no_verdict : String → AnomalyResult F
  no_verdict reason = record {
    anomaly_type = vwap_deviation;
    is_anomalous = false;
    severity_score = fl.lit 0 1;
    confidence = fl.lit 0 1;
    details = fields (("reason", str reason) ∷ []);
    recommendation = "ALLOW";
    timestamp = none;
  }

  pub insufficient : ℕ → AnomalyResult F
  insufficient n = record {
    anomaly_type = vwap_deviation;
    is_anomalous = false;
    severity_score = fl.lit 0 1;
    confidence = fl.lit 0 1;
    details = fields (("reason", str "insufficient_history") ∷ ("window_size", int (pos n)) ∷ []);
    recommendation = "ALLOW";
    timestamp = none;
  }

  pub severity : F → F → Outcome F
  severity threshold deviation =
      if fl.lt threshold deviation
      then (do q ← true_div deviation threshold; ok (min_f (fl.lit 1 1) q))
      else ok (fl.lit 0 1)

  pub report : VwapMonitor F → OrderEvent F → ℤ → F → F → AnomalyResult F
  report m event vwap deviation s = record {
    anomaly_type = vwap_deviation;
    is_anomalous = fl.lt m.deviation_threshold deviation;
    severity_score = s;
    confidence = fl.lit 90 100;
    details = fields (
        ("account_id", str event.account_id)
        ∷ ("symbol", str event.symbol)
        ∷ ("current_price", int event.price)
        ∷ ("current_vwap", int vwap)
        ∷ ("deviation_pct", float (fl.round (fl.mul deviation (fl.of_int (pos 100))) 2))
        ∷ ("threshold_pct", float (fl.mul m.deviation_threshold (fl.of_int (pos 100))))
        ∷ []);
    recommendation = if fl.lt s (fl.lit 7 10) then "FLAG" else "BLOCK";
    timestamp = none;
  }

  -- `abs(price - current_vwap) / current_vwap`
  pub deviation_of : ℤ → ℤ → F
  deviation_of price vwap = fl.div_int (abs_ℤ (price -ℤ vwap)) vwap

  -- The comparison with the average, which a quotient beyond the range of a float ends.
  abbrev pub compared : VwapMonitor F → OrderEvent F → ℤ → Outcome (AnomalyResult F)
  compared m event vwap = do
    deviation ← finite (deviation_of event.price vwap)
    s ← severity m.deviation_threshold deviation
    new_result (report m event vwap deviation s)

  -- The part of `check` that follows the update of the window.
  pub judge : VwapMonitor F → OrderEvent F → ℤ → ℕ → Outcome (AnomalyResult F)
  judge m event vwap size =
      if ltb size 10
      then new_result (insufficient size)
      else if eqb_ℤ vwap (pos 0)
      then new_result (no_verdict "zero_vwap")
      else compared m event vwap

  pub check : VwapMonitor F → OrderEvent F → Outcome (AnomalyResult F) × VwapMonitor F
  check m event =
      let key = key_of event.account_id event.symbol in
      let window = get_or key [] m.vwap_windows in
      let current_vwap = calculate_vwap window in
      let window' = push m.lookback_periods window (entry_of event) in
      (
        judge m event current_vwap (length window'),
        record m { vwap_windows = insert key window' m.vwap_windows },
      )
