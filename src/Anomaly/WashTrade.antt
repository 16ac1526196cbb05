-- ===== src/Anomaly/WashTrade.antt =====
-- ai_guardrail/aerorisk/agents/agent1_anomaly/wash_trade.py. The time of the check is an argument.
pub mod History
pub mod Trades
pub mod Verdict
pub mod Window
use aero_risk_ai.Base.{
  ℕ, zero, suc, ◌+◌, ◌*◌, String, concat, Bool, true, false, not, ◌&&◌, Option, none, some, List,
  [], ◌∷◌, ◌++◌, leb, if◌then◌else◌,
}
use aero_risk_ai.Base.Int.{ℤ, pos, ◌-ℤ◌, abs_ℤ, max_ℤ}
use aero_risk_ai.Base.Lists.{length}
use aero_risk_ai.Base.Dict.{Dict, lookup, insert, get_or}
use aero_risk_ai.Base.Outcome.{Outcome, ok, err, zero_division, ◌>>=◌}
use aero_risk_ai.Base.Float.{Float, finite, min_f}
use aero_risk_ai.Base.Value.{fields, str, int}
use aero_risk_ai.Models.Event.{OrderEvent, OrderSide, same_side}
use aero_risk_ai.Models.Anomaly.{AnomalyResult, wash_trade, new_result}

pub record TradeRecord (F : Type 0) : Type 0 where
  pub account_id : String
  pub symbol : String
  pub side : OrderSide
  pub price : ℤ
  pub quantity : ℤ
  pub timestamp : F
  pub counterparty_id : Option String

pub record WashTradeDetector (F : Type 0) : Type 0 where
  pub time_window_seconds : ℕ
  pub min_round_trips : ℕ
  pub trade_history : Dict (List (TradeRecord F))

-- f"{account_id}:{symbol}"
abbrev pub key_of : String → String → String
key_of account symbol = concat account (concat ":" symbol)

module _ {F : Type 0} ⦃fl : Float F⦄ where
  -- `while window and window[0].timestamp < cutoff: window.popleft()`
  unfoldable pub drop_old : F → List (TradeRecord F) → List (TradeRecord F)
  drop_old cutoff [] = []
  drop_old cutoff (t ∷ ts) =
      let rest = drop_old cutoff ts in if fl.lt t.timestamp cutoff then rest else t ∷ ts

  unfoldable pub trade_of : OrderEvent F → F → TradeRecord F
  trade_of event now = record {
    account_id = event.account_id;
    symbol = event.symbol;
    side = event.side;
    price = event.price;
    quantity = event.quantity;
    timestamp = now;
    counterparty_id = none;
  }

  unfoldable pub price_diff : ℤ → ℤ → F
  price_diff prev price = fl.div_int (abs_ℤ (prev -ℤ price)) (max_ℤ prev (pos 1))

  -- The test in the loop: the opposite side at a price within 1%. A quotient beyond the range of a
  -- float raises.
  unfoldable pub is_match : OrderEvent F → TradeRecord F → Outcome Bool
  is_match event prev =
      if same_side prev.side event.side
      then ok false
      else (do diff ← finite (price_diff prev.price event.price); ok (fl.lt diff (fl.lit 1 100)))

  -- The loop over the window, on `round_trips` and `matching_trades`.
  pub scan :
      OrderEvent F
      → List (TradeRecord F)
      → ℕ
      → List (TradeRecord F)
      → Outcome (ℕ × List (TradeRecord F))
  scan event [] trips found = ok (trips, found)
  scan event (prev ∷ window) trips found = do
    hit ← is_match event prev
    scan event window (if hit then trips + 1 else trips) (if hit then found ++ prev ∷ [] else found)

  pub severity : ℕ → ℕ → Outcome F
  severity minimum trips =
      if leb minimum trips
      then elim minimum [
        | zero ↦ err zero_division
        | suc m ↦ ok (min_f (fl.lit 1 1) (fl.div_int (pos trips) (pos (suc m * 2))))
      ]
      else ok (fl.lit 0 1)

  pub report : WashTradeDetector F → OrderEvent F → ℕ → ℕ → F → AnomalyResult F
  report d event trips matching s = record {
    anomaly_type = wash_trade;
    is_anomalous = leb d.min_round_trips trips;
    severity_score = s;
    confidence = fl.lit 85 100;
    details = fields (
        ("account_id", str event.account_id)
        ∷ ("symbol", str event.symbol)
        ∷ ("round_trips_detected", int (pos trips))
        ∷ ("min_required", int (pos d.min_round_trips))
        ∷ ("time_window_seconds", int (pos d.time_window_seconds))
        ∷ ("matching_trades", int (pos matching))
        ∷ []);
    recommendation = if fl.lt (fl.lit 6 10) s then "BLOCK" else "FLAG";
    timestamp = none;
  }

  -- The part of `check` that follows the loop.
  pub judge :
      WashTradeDetector F → OrderEvent F → ℕ × List (TradeRecord F) → Outcome (AnomalyResult F)
  judge d event (trips, found) = do
    s ← severity d.min_round_trips trips
    new_result (report d event trips (length found) s)

  -- The window of the event once the old trades are gone.
  unfoldable pub window_at : WashTradeDetector F → OrderEvent F → F → List (TradeRecord F)
  window_at d event now =
      drop_old (fl.sub now (fl.of_int (pos d.time_window_seconds)))
        (get_or (key_of event.account_id event.symbol) [] d.trade_history)

  -- What follows the loop: an exception in it leaves the trade out of the window.
  pub noted :
      WashTradeDetector F
      → OrderEvent F
      → F
      → Outcome (ℕ × List (TradeRecord F))
      → Outcome (AnomalyResult F) × WashTradeDetector F
  noted d event now (err e) = (
    err e,
    record d {
      trade_history =
          insert (key_of event.account_id event.symbol) (window_at d event now) d.trade_history;
    },
  )
  noted d event now (ok counted) = (
    judge d event counted,
    record d {
      trade_history =
          insert (key_of event.account_id event.symbol)
            (window_at d event now ++ trade_of event now ∷ []) d.trade_history;
    },
  )

  pub check :
      WashTradeDetector F → OrderEvent F → F → Outcome (AnomalyResult F) × WashTradeDetector F
  unfolding noted
  check d event now = noted d event now (scan event (window_at d event now) 0 [])
