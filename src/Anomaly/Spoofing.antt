-- ===== src/Anomaly/Spoofing.antt =====
-- ai_guardrail/aerorisk/agents/agent1_anomaly/spoofing_hmm.py. The handler of each action of an
-- event is a function of its own.
pub mod Tracking
pub mod Verdict
use aero_risk_ai.Base.{
  ℕ, ◌+◌, String, Bool, true, false, ◌&&◌, Option, none, some, List, [], ◌∷◌, ◌++◌, if◌then◌else◌,
}
use aero_risk_ai.Base.Int.{ℤ, pos, max_ℤ}
use aero_risk_ai.Base.Lists.{length}
use aero_risk_ai.Base.Dict.{Dict, lookup, insert, get_or}
use aero_risk_ai.Base.Outcome.{Outcome, ◌>>=◌}
use aero_risk_ai.Base.Float.{Float, finite, min_f}
use aero_risk_ai.Base.Value.{fields, str, float}
use aero_risk_ai.Models.Event.{OrderEvent, OrderSide, OrderAction, submit, cancel, fill, modify}
use aero_risk_ai.Models.Anomaly.{AnomalyResult, spoofing, new_result}

pub record OrderBookLevel (F : Type 0) : Type 0 where
  pub price : ℤ
  pub bid_quantity : ℤ
  pub ask_quantity : ℤ
  pub timestamp : F

pub record OrderLifecycle (F : Type 0) : Type 0 where
  pub order_id : String
  pub side : OrderSide
  pub price : ℤ
  pub quantity : ℤ
  pub submit_time : F
  pub cancel_time : Option F
  pub fill_time : Option F
  pub filled_quantity : ℤ

pub record SpoofingDetector (F : Type 0) : Type 0 where
  pub order_book_depth : ℕ
  pub cancellation_threshold : F
  pub order_lifecycles : Dict (OrderLifecycle F)
  pub account_orders : Dict (List String)
  pub book_snapshots : Dict (List (OrderBookLevel F))

module _ {F : Type 0} where
  -- `oid in lifecycles and lifecycles[oid].cancel_time is not None`
  abbrev pub was_cancelled : Option (OrderLifecycle F) → Bool
  was_cancelled none = false
  was_cancelled (some life) = elim life.cancel_time [ none ↦ false | some _ ↦ true ]

  -- The loop of `_calculate_cancellation_rate`.
  pub count_cancelled : Dict (OrderLifecycle F) → List String → ℕ → ℕ
  count_cancelled lives [] n = n
  count_cancelled lives (oid ∷ ids) n =
      count_cancelled lives ids (if was_cancelled (lookup oid lives) then n + 1 else n)

  -- A new order and its place among the orders of the account.
  pub on_submit : SpoofingDetector F → OrderEvent F → SpoofingDetector F
  on_submit d event = record d {
    order_lifecycles =
        insert event.order_id
          (record {
            order_id = event.order_id;
            side = event.side;
            price = event.price;
            quantity = event.quantity;
            submit_time = event.timestamp;
            cancel_time = none;
            fill_time = none;
            filled_quantity = pos 0;
          })
          d.order_lifecycles;
    account_orders =
        insert event.account_id (get_or event.account_id [] d.account_orders ++ event.order_id ∷ [])
          d.account_orders;
  }

  -- `lifecycle.cancel_time = event.timestamp`
  pub mark_cancelled : SpoofingDetector F → OrderEvent F → OrderLifecycle F → SpoofingDetector F
  mark_cancelled d event life = record d {
    order_lifecycles =
        insert event.order_id (record life { cancel_time = some event.timestamp })
          d.order_lifecycles;
  }

  pub fill_known :
      SpoofingDetector F → OrderEvent F → Option (OrderLifecycle F) → SpoofingDetector F
  fill_known d event none = d
  fill_known d event (some life) = record d {
    order_lifecycles =
        insert event.order_id
          (record life { fill_time = some event.timestamp; filled_quantity = event.quantity })
          d.order_lifecycles;
  }

  pub on_fill : SpoofingDetector F → OrderEvent F → SpoofingDetector F
  unfolding fill_known
  on_fill d event = fill_known d event (lookup event.order_id d.order_lifecycles)

module _ {F : Type 0} ⦃fl : Float F⦄ where
  pub rate_among : Dict (OrderLifecycle F) → List String → F
  rate_among lives [] = fl.lit 0 1
  rate_among lives (oid ∷ ids) =
      fl.div_int (pos (count_cancelled lives (oid ∷ ids) 0))
        (max_ℤ (pos (length (oid ∷ ids))) (pos 1))

  pub calculate_cancellation_rate : SpoofingDetector F → String → F
  calculate_cancellation_rate d account =
      rate_among d.order_lifecycles (get_or account [] d.account_orders)

  -- The answer of every branch that finds nothing.
  pub clean : String → AnomalyResult F
  clean reason = record {
    anomaly_type = spoofing;
    is_anomalous = false;
    severity_score = fl.lit 0 1;
    confidence = fl.lit 0 1;
    details = fields (("reason", str reason) ∷ []);
    recommendation = "ALLOW";
    timestamp = none;
  }

  pub submission : String → AnomalyResult F
  submission order_id = record {
    anomaly_type = spoofing;
    is_anomalous = false;
    severity_score = fl.lit 0 1;
    confidence = fl.lit 0 1;
    details = fields (("reason", str "order_submission") ∷ ("order_id", str order_id) ∷ []);
    recommendation = "ALLOW";
    timestamp = none;
  }

  pub lifetime_of : OrderEvent F → OrderLifecycle F → F
  lifetime_of event life = fl.sub event.timestamp life.submit_time

  pub fill_ratio : OrderLifecycle F → F
  fill_ratio life = fl.div_int life.filled_quantity (max_ℤ life.quantity (pos 1))

  -- Cancelled within a second, with no fill: the ratio is computed before, and may raise.
  pub is_suspicious : OrderEvent F → OrderLifecycle F → Bool
  is_suspicious event life =
      fl.lt (lifetime_of event life) (fl.lit 1 1) && fl.eq (fill_ratio life) (fl.of_int (pos 0))

  pub report : SpoofingDetector F → OrderEvent F → OrderLifecycle F → F → F → AnomalyResult F
  report d event life rate s = record {
    anomaly_type = spoofing;
    is_anomalous = fl.lt d.cancellation_threshold rate;
    severity_score = s;
    confidence = fl.lit 80 100;
    details = fields (
        ("account_id", str event.account_id)
        ∷ ("order_id", str event.order_id)
        ∷ ("order_lifetime_seconds", float (fl.round (lifetime_of event life) 3))
        ∷ ("fill_ratio", float (fl.round (fill_ratio life) 2))
        ∷ ("account_cancellation_rate", float (fl.round rate 2))
        ∷ ("threshold", float d.cancellation_threshold)
        ∷ []);
    recommendation = if fl.lt (fl.lit 7 10) s then "BLOCK" else "FLAG";
    timestamp = none;
  }

  pub severity : F → F → F
  severity threshold rate = if fl.lt threshold rate then min_f (fl.lit 1 1) rate else fl.lit 0 1

  -- The rate is that of the detector in which the order is already marked.
  abbrev pub judge_with :
      SpoofingDetector F → OrderEvent F → OrderLifecycle F → Outcome (AnomalyResult F)
  judge_with d event life =
      if is_suspicious event life
      then (let rate = calculate_cancellation_rate d event.account_id in
          new_result (report d event life rate (severity d.cancellation_threshold rate)))
      else new_result (clean "normal_cancellation")

  -- A ratio beyond the range of a float ends the check.
  pub judge_cancel :
      SpoofingDetector F → OrderEvent F → OrderLifecycle F → Outcome (AnomalyResult F)
  judge_cancel d event life = finite (fill_ratio life) >>= λ ratio. judge_with d event life

  pub on_cancel :
      SpoofingDetector F
      → OrderEvent F
      → Option (OrderLifecycle F)
      → Outcome (AnomalyResult F) × SpoofingDetector F
  on_cancel d event none = (new_result (clean "normal_cancellation"), d)
  on_cancel d event (some life) =
      let d' = mark_cancelled d event life in (judge_cancel d' event life, d')

  pub dispatch :
      SpoofingDetector F
      → OrderEvent F
      → OrderAction
      → Outcome (AnomalyResult F) × SpoofingDetector F
  dispatch d event submit = (new_result (submission event.order_id), on_submit d event)
  dispatch d event cancel = on_cancel d event (lookup event.order_id d.order_lifecycles)
  dispatch d event fill = (new_result (clean "no_spoofing_indicators"), on_fill d event)
  dispatch d event modify = (new_result (clean "no_spoofing_indicators"), d)

  pub check : SpoofingDetector F → OrderEvent F → Outcome (AnomalyResult F) × SpoofingDetector F
  check d event = dispatch d event event.action
