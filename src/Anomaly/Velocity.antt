-- ===== src/Anomaly/Velocity.antt =====
-- ai_guardrail/aerorisk/agents/agent1_anomaly/velocity_check.py. A datetime is the number of
-- microseconds since datetime.min; an earlier one is Python's OverflowError.
pub mod Window
pub mod History
pub mod Verdict
use aero_risk_ai.Base.{
  ℕ, suc, ◌+◌, ◌-◌, ◌*◌, String, Bool, Option, none, some, List, [], ◌∷◌, ◌++◌, ltb, if◌then◌else◌,
}
use aero_risk_ai.Base.Int.{ℤ, pos, ◌-ℤ◌}
use aero_risk_ai.Base.Lists.{length}
use aero_risk_ai.Base.Dict.{Dict, lookup, insert, get_or, contains}
use aero_risk_ai.Base.Outcome.{Outcome, ok, err, overflow, ◌>>=◌}
use aero_risk_ai.Base.Float.{Float, finite, max_f, min_f, true_div}
use aero_risk_ai.Base.Value.{fields, str, float, int}
use aero_risk_ai.Models.Event.{OrderEvent}
use aero_risk_ai.Models.Anomaly.{AnomalyResult, velocity_violation, new_result}

pub record VelocityChecker : Type 0 where
  pub window_size : ℕ
  pub max_orders_per_second : ℕ
  pub account_windows : Dict (List ℕ)

abbrev pub micros : ℕ
micros = 1_000_000

-- `while window and window[0] < cutoff: window.popleft()`
pub drop_old : ℕ → List ℕ → List ℕ
drop_old cutoff [] = []
drop_old cutoff (t ∷ ts) = let rest = drop_old cutoff ts in if ltb t cutoff then rest else t ∷ ts

-- `window[0]`, after `window.append(now)`
abbrev pub first : ℕ → List ℕ → ℕ
first now [] = now
first now (t ∷ ts) = t

-- The window of the account once the old entries are gone and the event is in.
pub slide : ℕ → ℕ → List ℕ → List ℕ
slide size now window = drop_old (now - size * micros) window ++ now ∷ []

-- `if account_id not in self._account_windows: self._account_windows[account_id] = deque()`
pub opened : String → Dict (List ℕ) → Dict (List ℕ)
opened account windows = if contains account windows then windows else insert account [] windows

module _ {F : Type 0} ⦃fl : Float F⦄ where
  pub time_span : ℕ → List ℕ → F
  time_span now window =
      if ltb 1 (length window)
      then fl.div_int (pos now -ℤ pos (first now window)) (pos micros)
      else fl.lit 1 1

  pub order_rate : ℕ → List ℕ → Outcome F
  order_rate now window =
      true_div (fl.of_int (pos (length window))) (max_f (time_span now window) (fl.lit 1 1))

  pub severity : ℕ → F → Outcome F
  severity limit rate =
      if fl.lt (fl.of_int (pos limit)) rate
      then (do
        divisor ← finite (fl.of_int (pos limit))
        q ← true_div rate divisor
        ok (min_f (fl.lit 1 1) (fl.sub q (fl.lit 1 1))))
      else ok (fl.lit 0 1)

  -- The fields that `check` gives to AnomalyResult.
  pub report : VelocityChecker → OrderEvent F → List ℕ → F → F → AnomalyResult F
  report c event window rate s = record {
    anomaly_type = velocity_violation;
    is_anomalous = fl.lt (fl.of_int (pos c.max_orders_per_second)) rate;
    severity_score = s;
    confidence = fl.lit 95 100;
    details = fields (
        ("account_id", str event.account_id)
        ∷ ("order_rate", float (fl.round rate 2))
        ∷ ("max_allowed", int (pos c.max_orders_per_second))
        ∷ ("window_size_seconds", int (pos c.window_size))
        ∷ ("order_count", int (pos (length window)))
        ∷ []);
    recommendation = if fl.lt (fl.lit 5 10) s then "BLOCK" else "FLAG";
    timestamp = none;
  }

  -- The part of `check` that follows the update of the window.
  pub judge : VelocityChecker → OrderEvent F → ℕ → List ℕ → Outcome (AnomalyResult F)
  judge c event now window = do
    rate ← order_rate now window
    s ← severity c.max_orders_per_second rate
    new_result (report c event window rate s)

  pub check : VelocityChecker → OrderEvent F → ℕ → Outcome (AnomalyResult F) × VelocityChecker
  check c event now =
      let account = event.account_id in
      let windows = opened account c.account_windows in
      if ltb now (c.window_size * micros)
      then (err overflow, record c { account_windows = windows })
      else (let window = slide c.window_size now (get_or account [] windows) in
          (judge c event now window, record c { account_windows = insert account window windows }))
