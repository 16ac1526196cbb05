-- ===== src/Anomaly/Agent.antt =====
-- ai_guardrail/aerorisk/agents/agent1_anomaly/agent.py: the four checks one after the other, and
-- the summary. The clock is read twice, as a datetime and as a POSIX timestamp.
pub mod Summary
use aero_risk_ai.Base.{
  ℕ, String, Bool, true, false, not, Option, none, some, List, [], ◌∷◌, ◌++◌, map, if◌then◌else◌,
}
use aero_risk_ai.Base.Lists.{is_empty}
use aero_risk_ai.Base.Outcome.{Outcome, ok, err}
use aero_risk_ai.Base.Exec.{Exec, pure, ◌>>=◌}
use aero_risk_ai.Base.Float.{Float, max_f}
use aero_risk_ai.Base.Value.{Value, Fields, fields, str, list, values}
use aero_risk_ai.Models.Event.{OrderEvent}
use aero_risk_ai.Models.Anomaly.{AnomalyResult, AnomalyType, dump_result}
use aero_risk_ai.Anomaly.Velocity
use aero_risk_ai.Anomaly.Velocity.{VelocityChecker}
use aero_risk_ai.Anomaly.Vwap
use aero_risk_ai.Anomaly.Vwap.{VwapMonitor}
use aero_risk_ai.Anomaly.WashTrade
use aero_risk_ai.Anomaly.WashTrade.{WashTradeDetector}
use aero_risk_ai.Anomaly.Spoofing
use aero_risk_ai.Anomaly.Spoofing.{SpoofingDetector}

-- The keys that the constructor reads of its `config`.
pub record Config (F : Type 0) : Type 0 where
  pub velocity_window : Option ℕ
  pub max_ops : Option ℕ
  pub vwap_lookback : Option ℕ
  pub vwap_threshold : Option F
  pub wash_trade_window : Option ℕ
  pub min_round_trips : Option ℕ
  pub order_book_depth : Option ℕ
  pub cancel_threshold : Option F

pub record Agent1Anomaly (F : Type 0) : Type 0 where
  pub velocity_checker : VelocityChecker
  pub vwap_monitor : VwapMonitor F
  pub wash_trade_detector : WashTradeDetector F
  pub spoofing_detector : SpoofingDetector F

-- The dictionary that `detect_anomalies` returns.
pub record Findings (F : Type 0) : Type 0 where
  pub anomaly_results : List (AnomalyResult F)
  pub anomaly_detected : Bool
  pub max_anomaly_severity : F
  pub anomaly_types : List AnomalyType
  pub anomaly_details : Fields F

-- `config.get(key, default)`
abbrev pub config_or : {A : Type 0} → A → Option A → A
config_or v none = v
config_or v (some w) = w

module _ {F : Type 0} ⦃fl : Float F⦄ where
  pub new_agent : Config F → Agent1Anomaly F
  new_agent config = record {
    velocity_checker = record {
      window_size = config_or 60 config.velocity_window;
      max_orders_per_second = config_or 100 config.max_ops;
      account_windows = [];
    };
    vwap_monitor = record {
      lookback_periods = config_or 300 config.vwap_lookback;
      deviation_threshold = config_or (fl.lit 5 100) config.vwap_threshold;
      vwap_windows = [];
    };
    wash_trade_detector = record {
      time_window_seconds = config_or 300 config.wash_trade_window;
      min_round_trips = config_or 3 config.min_round_trips;
      trade_history = [];
    };
    spoofing_detector = record {
      order_book_depth = config_or 10 config.order_book_depth;
      cancellation_threshold = config_or (fl.lit 8 10) config.cancel_threshold;
      order_lifecycles = [];
      account_orders = [];
      book_snapshots = [];
    };
  }

  -- A check of one detector, as a step of the agent.
  pub velocity_step : OrderEvent F → ℕ → Exec (Agent1Anomaly F) (AnomalyResult F)
  velocity_step event now a =
      let (r, v) = Velocity.check a.velocity_checker event now in
      (r, record a { velocity_checker = v })

  pub vwap_step : OrderEvent F → Exec (Agent1Anomaly F) (AnomalyResult F)
  vwap_step event a =
      let (r, v) = Vwap.check a.vwap_monitor event in (r, record a { vwap_monitor = v })

  pub wash_step : OrderEvent F → F → Exec (Agent1Anomaly F) (AnomalyResult F)
  wash_step event now a =
      let (r, w) = WashTrade.check a.wash_trade_detector event now in
      (r, record a { wash_trade_detector = w })

  pub spoofing_step : OrderEvent F → Exec (Agent1Anomaly F) (AnomalyResult F)
  spoofing_step event a =
      let (r, s) = Spoofing.check a.spoofing_detector event in
      (r, record a { spoofing_detector = s })

  -- `if result.is_anomalous: results.append(result)`
  pub keep : List (AnomalyResult F) → AnomalyResult F → List (AnomalyResult F)
  keep results r = if r.is_anomalous then results ++ r ∷ [] else results

  -- `max(..., default=0.0)` over the severities
  pub max_from : F → List (AnomalyResult F) → F
  max_from best [] = best
  max_from best (r ∷ rs) = max_from (max_f best r.severity_score) rs

  pub max_severity : List (AnomalyResult F) → F
  max_severity [] = fl.lit 0 1
  max_severity (r ∷ rs) = max_from r.severity_score rs

  pub summarise : OrderEvent F → List (AnomalyResult F) → Findings F
  summarise event results = record {
    anomaly_results = results;
    anomaly_detected = not (is_empty results);
    max_anomaly_severity = max_severity results;
    anomaly_types = map (λ r. r.anomaly_type) results;
    anomaly_details = fields (
        ("account_id", str event.account_id)
        ∷ ("symbol", str event.symbol)
        ∷ ("findings", list (values (map dump_result results)))
        ∷ []);
  }

  pub detect_anomalies : OrderEvent F → ℕ → F → Exec (Agent1Anomaly F) (Findings F)
  detect_anomalies event utc now = do
    velocity ← velocity_step event utc
    vwap ← vwap_step event
    wash ← wash_step event now
    spoof ← spoofing_step event
    pure (summarise event (keep (keep (keep (keep [] velocity) vwap) wash) spoof))
