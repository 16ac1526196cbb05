-- ===== src/Examples/Detectors.antt =====
-- The theorems on the detectors of agent 1 at concrete events, and runs of the code.
use aero_risk_ai.Base.{
  ℕ, ◌*◌, leb, String, ◌≡◌, ◌⊎◌, if◌then◌else◌, refl, true, false, none, List, [], ◌∷◌, arith,
}
use aero_risk_ai.Base.Int.{pos, ◌≤ℤ◌}
use aero_risk_ai.Base.Lists.{All, any, length, select, count, replicate}
use aero_risk_ai.Base.Dict.{lookup}
use aero_risk_ai.Base.Outcome.{ok, err, overflow}
use aero_risk_ai.Base.Float.{InUnit}
use aero_risk_ai.Models.Event.{OrderEvent, buy, submit, cancel, fill, OrderSide, OrderAction}
use aero_risk_ai.Models.Anomaly.{AnomalyResult}
use aero_risk_ai.Anomaly.Velocity
use aero_risk_ai.Anomaly.Velocity.{VelocityChecker, micros, slide}
use aero_risk_ai.Anomaly.Velocity.History as VelocityHistory
use aero_risk_ai.Anomaly.Velocity.Verdict as VelocityVerdict
use aero_risk_ai.Anomaly.Velocity.Window.{since}
use aero_risk_ai.Anomaly.Vwap
use aero_risk_ai.Anomaly.Vwap.{VwapMonitor, VwapEntry}
use aero_risk_ai.Anomaly.Vwap.Bounds.{calculate_vwap-Between}
use aero_risk_ai.Anomaly.Vwap.History as VwapHistory
use aero_risk_ai.Anomaly.Vwap.Verdict as VwapVerdict
use aero_risk_ai.Anomaly.WashTrade
use aero_risk_ai.Anomaly.WashTrade.{WashTradeDetector, TradeRecord}
use aero_risk_ai.Anomaly.WashTrade.Verdict as WashVerdict
use aero_risk_ai.Anomaly.Spoofing
use aero_risk_ai.Anomaly.Spoofing.{SpoofingDetector, OrderLifecycle}
use aero_risk_ai.Anomaly.Spoofing.Tracking.{IsTracked, run-IsTracked}
use aero_risk_ai.Anomaly.Spoofing.Tracking as SpoofingTracking
use aero_risk_ai.Anomaly.Spoofing.Verdict as SpoofingVerdict
use aero_risk_ai.Anomaly.Agent.{Agent1Anomaly, Findings, detect_anomalies}
use aero_risk_ai.Anomaly.Agent.Summary.{Summarises, detect_anomalies-ok}
use aero_risk_ai.Anomaly.Embedding.{generate_order_embedding, hour_feature}
use aero_risk_ai.Anomaly.Embedding.Range.{generate_order_embedding-ok}
use aero_risk_ai.Examples.Fixed.{Fixed, units, one, fixed_float, fixed_laws}

abbrev event : String → String → OrderSide → OrderAction → ℕ → ℕ → ℕ → OrderEvent Fixed
event order account side action price quantity time = record {
  order_id = order;
  account_id = account;
  symbol = "ACME";
  side = side;
  action = action;
  price = pos price;
  quantity = pos quantity;
  timestamp = units (time * one);
  client_order_id = none;
  user_agent = none;
  ip_address = none;
}

abbrev checker : VelocityChecker
checker = record { window_size = 60; max_orders_per_second = 2; account_windows = [] }

abbrev earlier : VelocityHistory.History Fixed
earlier =
    (event "o3" "bob" buy submit 5 1 0, 100_000_000)
    ∷ (event "o2" "ann" buy submit 5 1 0, 70_000_000)
    ∷ (event "o1" "ann" buy submit 5 1 0, 61_000_000)
    ∷ []

recent_window-run_example :
    VelocityHistory.window_of "ann"
      (VelocityHistory.run checker ((event "o4" "ann" buy submit 5 1 0, 125_000_000) ∷ earlier))
    ≡ select
        (since 65_000_000)
        (VelocityHistory.times "ann" ((event "o4" "ann" buy submit 5 1 0, 125_000_000) ∷ earlier))
recent_window-run_example =
    VelocityHistory.recent_window-run checker (event "o4" "ann" buy submit 5 1 0) 125_000_000
      earlier (unfold lookup in refl) (omega arith)

-- A burst of three orders in the window of an account that may send two a second.
abbrev busy : VelocityChecker
busy = record checker { account_windows = ("ann", 65_000_000 ∷ 65_100_000 ∷ []) ∷ [] }

abbrev burst : OrderEvent Fixed
burst = event "o3" "ann" buy submit 5 1 0

velocity_check-verdict_example :
    let rate =
      VelocityVerdict.rate_of fixed_laws 65_200_000
        (slide 60 65_200_000 (VelocityHistory.window_of "ann" busy)) in
    (r : AnomalyResult Fixed) × ((Velocity.check busy burst 65_200_000).0 ≡ ok r)
    × InUnit r.severity_score
    × (r.is_anomalous ≡ fixed_float.lt (fixed_float.of_int (pos 2)) rate)
    × (r.is_anomalous ≡ false → r.severity_score ≡ fixed_float.lit 0 1)
    × (r.recommendation
        ≡ (if fixed_float.lt (fixed_float.lit 5 10) r.severity_score then "BLOCK" else "FLAG"))
velocity_check-verdict_example =
    VelocityVerdict.velocity_check-verdict fixed_laws busy burst 65_200_000 (omega arith)
      (omega arith)

abbrev entry : ℕ → ℕ → VwapEntry Fixed
entry p q = record { price = pos p; quantity = pos q; timestamp = units 0 }

abbrev two_entries : List (VwapEntry Fixed)
two_entries = entry 10 1 ∷ entry 20 3 ∷ []

calculate_vwap-Between_example :
    (pos 10 ≤ℤ Vwap.calculate_vwap two_entries) × (Vwap.calculate_vwap two_entries ≤ℤ pos 20)
calculate_vwap-Between_example =
    calculate_vwap-Between (pos 10) (pos 20) two_entries
      ((1, refl, omega arith, omega arith), ((3, refl, omega arith, omega arith), tt))
      (unfold Vwap.total_volume in refl)

-- Nine entries at price 100, so that the next event is compared.
abbrev monitor : VwapMonitor Fixed
monitor = record {
  lookback_periods = 300;
  deviation_threshold = fixed_float.lit 5 100;
  vwap_windows = ("ann:ACME", replicate 9 (entry 100 1)) ∷ [];
}

abbrev dear : OrderEvent Fixed
dear = event "o10" "ann" buy submit 110 1 0

last_window-run_example :
    VwapHistory.window_of "bob:ACME"
      (VwapHistory.run monitor (event "b" "bob" buy submit 7 1 0 ∷ []))
    ≡ VwapHistory.last 300 (VwapHistory.entries "bob:ACME" (event "b" "bob" buy submit 7 1 0 ∷ []))
last_window-run_example =
    VwapHistory.last_window-run monitor "bob:ACME" (event "b" "bob" buy submit 7 1 0 ∷ [])
      (unfold lookup in refl)

vwap_check-verdict_example :
    let window = VwapHistory.window_of "ann:ACME" monitor in
    VwapVerdict.Answers fixed_laws monitor
      (pos 110)
      (Vwap.calculate_vwap window)
      (length (Vwap.push 300 window (Vwap.entry_of dear)))
      (Vwap.check monitor dear).0
vwap_check-verdict_example = VwapVerdict.vwap_check-verdict fixed_laws monitor dear (ground arith)

abbrev washer : WashTradeDetector Fixed
washer = record { time_window_seconds = 300; min_round_trips = 3; trade_history = [] }

abbrev washed : List (TradeRecord Fixed)
washed = WashTrade.window_at washer dear (units (1000 * one))

wash_check-verdict_example :
    ((any (WashVerdict.overflows dear) washed ≡ true)
      × ((WashTrade.check washer dear (units (1000 * one))).0 ≡ err overflow))
    ⊎ ((any (WashVerdict.overflows dear) washed ≡ false)
        × (r : AnomalyResult Fixed) × ((WashTrade.check washer dear (units (1000 * one))).0 ≡ ok r)
        × InUnit r.severity_score
        × (r.is_anomalous ≡ leb 3 (count (WashVerdict.counters dear) washed))
        × (r.is_anomalous ≡ false → r.severity_score ≡ fixed_float.lit 0 1))
wash_check-verdict_example =
    WashVerdict.wash_check-verdict fixed_laws washer dear (units (1000 * one)) (omega arith)

abbrev spoof : SpoofingDetector Fixed
spoof = record {
  order_book_depth = 10;
  cancellation_threshold = fixed_float.lit 8 10;
  order_lifecycles = [];
  account_orders = [];
  book_snapshots = [];
}

run-IsTracked_example :
    IsTracked (SpoofingTracking.run spoof (dear ∷ event "o10" "ann" buy cancel 110 1 0 ∷ []))
run-IsTracked_example =
    run-IsTracked spoof (dear ∷ event "o10" "ann" buy cancel 110 1 0 ∷ [])
      (record { known = λ a. unfold lookup in tt })

spoofing_check-verdict_example :
    SpoofingVerdict.Answers fixed_laws
      (SpoofingVerdict.overflows_at fixed_laws spoof dear submit)
      (SpoofingVerdict.flags_at fixed_laws spoof dear submit)
      (Spoofing.check spoof dear).0
spoofing_check-verdict_example = SpoofingVerdict.spoofing_check-verdict fixed_laws spoof dear

abbrev open_order : OrderLifecycle Fixed
open_order = record {
  order_id = "o10";
  side = buy;
  price = pos 110;
  quantity = pos 4;
  submit_time = units 0;
  cancel_time = none;
  fill_time = none;
  filled_quantity = pos 0;
}

abbrev with_order : SpoofingDetector Fixed
with_order = record spoof {
  order_lifecycles = ("o10", open_order) ∷ [];
  account_orders = ("ann", "o10" ∷ []) ∷ [];
}

cancel-fill_example :
    (r : AnomalyResult Fixed) × ((Spoofing.check
        (Spoofing.check with_order (event "o10" "ann" buy fill 110 2 0)).1
        (event "o10" "ann" buy cancel 110 4 0)).0
      ≡ ok r)
    × (r.is_anomalous ≡ false)
cancel-fill_example =
    SpoofingVerdict.cancel-fill fixed_laws with_order (event "o10" "ann" buy fill 110 2 0)
      (event "o10" "ann" buy cancel 110 4 0) open_order 2 4 (unfold lookup in refl) refl
      (omega arith) refl refl (omega arith) (omega arith) refl refl

abbrev agent : Agent1Anomaly Fixed
agent = record {
  velocity_checker = checker;
  vwap_monitor = monitor;
  wash_trade_detector = washer;
  spoofing_detector = spoof;
}

no_overflow :
    VwapVerdict.overflows fixed_laws
      (pos 110)
      (Vwap.calculate_vwap (VwapHistory.window_of "ann:ACME" monitor))
      (length (Vwap.push 300 (VwapHistory.window_of "ann:ACME" monitor) (Vwap.entry_of dear)))
    ≡ false
unfolding Vwap.calculate_vwap Vwap.push Vwap.total_volume Vwap.total_value Vwap.entry_of lookup
no_overflow = refl

no_trades : any (WashVerdict.overflows dear) washed ≡ false
unfolding WashTrade.window_at WashTrade.drop_old lookup
no_trades = refl

detect_anomalies-ok_example :
    (f : Findings Fixed) × (velocity : AnomalyResult Fixed) × (vwap : AnomalyResult Fixed)
    × (wash : AnomalyResult Fixed) × (spoofed : AnomalyResult Fixed) × ((detect_anomalies dear
          65_000_000
          (units (1000 * one))
          agent).0
        ≡ ok f)
    × ((Velocity.check checker dear 65_000_000).0 ≡ ok velocity)
    × ((Vwap.check monitor dear).0 ≡ ok vwap)
    × ((WashTrade.check washer dear (units (1000 * one))).0 ≡ ok wash)
    × ((Spoofing.check spoof dear).0 ≡ ok spoofed)
    × Summarises f velocity vwap wash spoofed
detect_anomalies-ok_example =
    detect_anomalies-ok fixed_laws agent dear 65_000_000 (units (1000 * one)) (omega arith)
      (omega arith) (ground arith) (omega arith) no_overflow no_trades refl

abbrev digest : String → List ℕ
digest s = replicate 16 7

generate_order_embedding-ok_example :
    (fs : List Fixed) × (generate_order_embedding digest 12 "ann" "ACME" "BUY"
        (pos 5)
        (pos 1)
        (units (7200 * one))
      ≡ ok fs)
    × (length fs ≡ 12)
    × All InUnit fs
generate_order_embedding-ok_example =
    generate_order_embedding-ok fixed_laws digest 12 "ann" "ACME" "BUY" (pos 5) (pos 1)
      (units (7200 * one)) (fixed_float.div (fixed_float.of_int (pos 2)) (fixed_float.lit 24 1))
      (λ s. refl) (unfold hour_feature in refl)
