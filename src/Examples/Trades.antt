-- ===== src/Examples/Trades.antt =====
-- The theorem on the trades of a whole history at concrete events.
use aero_risk_ai.Base.{ℕ, ◌*◌, String, ◌≡◌, inr, refl, leb, none, [], ◌∷◌, arith}
use aero_risk_ai.Base.Int.{pos}
use aero_risk_ai.Base.Lists.{count, select}
use aero_risk_ai.Base.Dict.{lookup}
use aero_risk_ai.Base.Outcome.{ok}
use aero_risk_ai.Models.Event.{OrderEvent, OrderSide, buy, sell, submit}
use aero_risk_ai.Models.Anomaly.{AnomalyResult}
use aero_risk_ai.Anomaly.WashTrade.{WashTradeDetector, check, trade_of}
use aero_risk_ai.Anomaly.WashTrade.Verdict.{counters}
use aero_risk_ai.Anomaly.WashTrade.Window.{is_fresh}
use aero_risk_ai.Anomaly.WashTrade.History.{wash_check-run}
use aero_risk_ai.Anomaly.WashTrade.Trades.{History, cutoff, trades, run}
use aero_risk_ai.Examples.Fixed.{Fixed, units, one, fixed_float, fixed_laws}

abbrev order : String → OrderSide → ℕ → OrderEvent Fixed
order name side price = record {
  order_id = name;
  account_id = "ann";
  symbol = "ACME";
  side = side;
  action = submit;
  price = pos price;
  quantity = pos 1;
  timestamp = units 0;
  client_order_id = none;
  user_agent = none;
  ip_address = none;
}

abbrev detector : WashTradeDetector Fixed
detector = record { time_window_seconds = 300; min_round_trips = 2; trade_history = [] }

-- The sale at second 500 is too old for the check at second 1000.
abbrev sales : History Fixed
sales =
    (order "o3" sell 1000, units (900 * one))
    ∷ (order "o2" sell 1001, units (800 * one))
    ∷ (order "o1" sell 1000, units (500 * one))
    ∷ []

abbrev purchase : OrderEvent Fixed
purchase = order "o4" buy 1000

wash_check-run_example :
    (r : AnomalyResult Fixed) × ((check (run detector sales) purchase (units (1000 * one))).0
      ≡ ok r)
    × (r.is_anomalous
        ≡ leb 2 (
            count
              (counters purchase)
              (select (is_fresh (cutoff 300 (units (1000 * one)))) (trades "ann:ACME" sales))))
wash_check-run_example =
    wash_check-run fixed_laws detector sales purchase (units (1000 * one)) (omega arith)
      (unfold lookup in refl) (omega arith)
      (inr (omega arith), (inr (omega arith), (inr (omega arith), tt)))
      ((refl, refl), ((refl, refl), ((refl, refl), (tt, tt))))

sales-two :
    count
      (counters purchase)
      (select (is_fresh (cutoff 300 (units (1000 * one)))) (trades "ann:ACME" sales))
    ≡ 2
unfolding trades trade_of
sales-two = refl
