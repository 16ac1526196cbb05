-- ===== src/Scoring.antt =====
-- ai_guardrail/aerorisk/agents/agent3_orchestrator/risk_scorer.py. The classes of the transaction
-- event, of the context that it reads and of the anomaly flags are not in the repository, so what
-- the scorer reads of them is a record of accessors.
pub mod Range
pub mod Levels
use aero_risk_ai.Base.{
  ℕ, String, Bool, true, false, Option, none, some, List, [], ◌∷◌, str_eq, if◌then◌else◌,
}
use aero_risk_ai.Base.Int.{ℤ, pos, ◌*ℤ◌, eqb_ℤ}
use aero_risk_ai.Base.Text.{lower_is}
use aero_risk_ai.Base.Outcome.{Outcome, ok, err, zero_division, ◌>>=◌}
use aero_risk_ai.Base.Float.{Float, finite, min_f, max_f, true_div}

-- What the scorer reads of an event, a context, a profile and a flag.
pub record Signals (F Event Context Profile Flag : Type 0) : Type 0 where
  pub price : Event → ℤ
  pub quantity : Event → ℤ
  pub sanctions_match : Context → Bool
  pub user_profile : Context → Option Profile
  pub risk_tier : Profile → String
  -- `profile.trading_limits.get(key)`
  pub trading_limit : Profile → String → Option ℤ
  pub anomaly_type : Flag → String
  -- `None` when the flag has no such attribute.
  pub confidence : Flag → Option F

abbrev pub limit_or : ℤ → Option ℤ → ℤ
limit_or v none = v
limit_or v (some w) = w

module _ {F : Type 0} ⦃fl : Float F⦄ where
  -- RISK_TIER_SCORES.get(tier.lower(), 0.3)
  unfoldable pub tier_score : String → F
  tier_score tier =
      if lower_is tier "low"
      then fl.lit 1 10
      else if lower_is tier "standard"
      then fl.lit 3 10
      else if lower_is tier "elevated"
      then fl.lit 6 10
      else if lower_is tier "high"
      then fl.lit 9 10
      else fl.lit 3 10

  unfoldable pub severity_weight : String → F
  severity_weight kind =
      if str_eq kind "velocity_check"
      then fl.lit 3 10
      else if str_eq kind "vwap_deviation"
      then fl.lit 2 10
      else if str_eq kind "wash_trade"
      then fl.lit 8 10
      else if str_eq kind "spoofing"
      then fl.lit 7 10
      else if str_eq kind "embedding_similarity"
      then fl.lit 4 10
      else fl.lit 5 10

  -- `a / b` on integers, whose quotient may be beyond the range of a float.
  unfoldable pub int_div : ℤ → ℤ → Outcome F
  int_div a b = if eqb_ℤ b (pos 0) then err zero_division else finite (fl.div_int a b)

  unfoldable pub velocity_band : F → F
  velocity_band ratio =
      if fl.lt (fl.lit 1 1) ratio
      then fl.lit 9 10
      else if fl.lt (fl.lit 8 10) ratio
      then fl.lit 7 10
      else if fl.lt (fl.lit 5 10) ratio
      then fl.lit 4 10
      else fl.lit 2 10

  unfoldable pub size_band : F → F
  size_band ratio =
      if fl.lt (fl.lit 1 1) ratio
      then fl.lit 8 10
      else if fl.lt (fl.lit 8 10) ratio
      then fl.lit 6 10
      else if fl.lt (fl.lit 5 10) ratio
      then fl.lit 4 10
      else fl.lit 2 10

  -- The sum over WEIGHTS, which starts from the integer 0.
  unfoldable pub weighted_total : F → F → F → F → F → F
  weighted_total anomaly tier velocity size sanctions =
      fl.add
        (fl.add
          (fl.add
            (fl.add (fl.add (fl.of_int (pos 0)) (fl.mul anomaly (fl.lit 30 100)))
              (fl.mul tier (fl.lit 20 100)))
            (fl.mul velocity (fl.lit 15 100)))
          (fl.mul size (fl.lit 15 100)))
        (fl.mul sanctions (fl.lit 20 100))

  -- `min(max(total_score, 0.0), 1.0)`
  unfoldable pub clamp : F → F
  clamp total = min_f (max_f total (fl.lit 0 1)) (fl.lit 1 1)

  pub get_risk_level : F → String
  get_risk_level score =
      if fl.le (fl.lit 8 10) score
      then "CRITICAL"
      else if fl.le (fl.lit 6 10) score
      then "HIGH"
      else if fl.le (fl.lit 3 10) score
      then "MEDIUM"
      else "LOW"

  unfoldable pub get_recommendation : F → String
  get_recommendation score =
      if fl.le (fl.lit 8 10) score
      then "BLOCK"
      else if fl.le (fl.lit 5 10) score
      then "FLAG"
      else if fl.le (fl.lit 3 10) score
      then "ADJUST_LIMIT"
      else "ALLOW"

module _ {F Event Context Profile Flag : Type 0} ⦃fl : Float F⦄
    (s : Signals F Event Context Profile Flag) where
  abbrev pub confidence_or : Flag → F
  confidence_or flag = elim (s.confidence flag) [ none ↦ fl.lit 5 10 | some c ↦ c ]

  -- The loop over the flags, on `weighted_sum` and `total_weight`.
  unfoldable pub weigh : List Flag → F → F → F × F
  weigh [] sum total = (sum, total)
  weigh (flag ∷ flags) sum total =
      let weight : F = severity_weight (s.anomaly_type flag) in
      weigh flags (fl.add sum (fl.mul weight (confidence_or flag))) (fl.add total weight)

  abbrev pub quotient : F × F → F
  quotient (sum, total) = if fl.eq total (fl.of_int (pos 0)) then fl.lit 0 1 else fl.div sum total

  unfoldable pub calculate_anomaly_score : List Flag → F
  calculate_anomaly_score [] = fl.lit 0 1
  calculate_anomaly_score (flag ∷ flags) = quotient (weigh (flag ∷ flags) (fl.lit 0 1) (fl.lit 0 1))

  unfoldable pub get_user_risk_score : Context → F
  get_user_risk_score context = elim (s.user_profile context) [
    | none ↦ fl.lit 3 10
    | some profile ↦ tier_score (s.risk_tier profile)
  ]

  unfoldable pub velocity_of : Option Profile → Outcome F
  velocity_of none = ok (fl.lit 3 10)
  velocity_of (some profile) = do
    ratio ← int_div (pos 10) (limit_or (pos 60) (s.trading_limit profile "max_orders_per_minute"))
    ok (velocity_band ratio)

  unfoldable pub calculate_velocity_factor : Context → Outcome F
  calculate_velocity_factor context = velocity_of (s.user_profile context)

  unfoldable pub size_of : Event → Option Profile → Outcome F
  size_of event none = ok (fl.lit 3 10)
  size_of event (some profile) = do
    value ← int_div (s.price event *ℤ s.quantity event) (pos 10_000)
    limit ←
        finite (fl.of_int (limit_or (pos 100_000) (s.trading_limit profile "single_order_limit")))
    ratio ← true_div value limit
    ok (size_band ratio)

  unfoldable pub calculate_size_factor : Event → Context → Outcome F
  calculate_size_factor event context = size_of event (s.user_profile context)

  unfoldable pub calculate_score : Event → Context → List Flag → Outcome F
  calculate_score event context flags = do
    velocity ← calculate_velocity_factor context
    size ← calculate_size_factor event context
    ok (
        clamp (
          weighted_total (calculate_anomaly_score flags) (get_user_risk_score context) velocity size
            (if s.sanctions_match context then fl.lit 1 1 else fl.lit 0 1)))
