-- ===== src/Graph/Router.antt =====
-- ai_guardrail/aerorisk/graph/router.py. The repository has no AgentState, and its AnomalyResult and
-- ContextBundle lack the fields that the router reads, so these are a record of accessors.
pub mod Paths
use aero_risk_ai.Base.{
  ℕ, String, Bool, true, false, not, ◌&&◌, ◌||◌, Option, none, some, List, [], ◌∷◌, str_eq,
  if◌then◌else◌,
}
use aero_risk_ai.Base.Lists.{any, is_empty}
use aero_risk_ai.Base.Float.{Float}

pub record Reads (F State Anomaly Context Profile : Type 0) : Type 0 where
  -- `state.get("anomaly_result")` and `state.get("context_bundle")`
  pub anomaly_result : State → Option Anomaly
  pub context_bundle : State → Option Context
  pub confidence_score : Anomaly → F
  pub flags : Anomaly → List String
  pub sanctions_hit : Context → Bool
  pub user_profile : Context → Option Profile
  pub is_high_value_client : Profile → Bool

pub data Route : Type 0 where
  high_risk suspicious normal : Route

pub data DecisionPath : Type 0 where
  auto_block auto_allow llm_review human_review : DecisionPath

-- `x in xs`
abbrev pub member : List String → String → Bool
member xs x = any (str_eq x) xs

abbrev high_risk_flags : List String
high_risk_flags =
    "sanctions_match" ∷ "confirmed_wash_trade" ∷ "spoofing_detected" ∷ "velocity_breach_critical"
    ∷ []

abbrev pub medium_risk_flags : List String
medium_risk_flags =
    "velocity_warning" ∷ "vwap_deviation" ∷ "unusual_pattern" ∷ "new_counterparty" ∷ []

abbrev block_flags : List String
block_flags = "confirmed_wash_trade" ∷ "spoofing_detected" ∷ "sanctions_match" ∷ []

module _ {F State Anomaly Context Profile : Type 0} ⦃fl : Float F⦄
    (r : Reads F State Anomaly Context Profile) where
  pub is_high_confidence_fraud : Anomaly → Bool
  is_high_confidence_fraud result =
      fl.le (fl.lit 85 100) (r.confidence_score result)
      || any (member high_risk_flags) (r.flags result)

  pub is_suspicious : Anomaly → Bool
  is_suspicious result =
      fl.le (fl.lit 5 10) (r.confidence_score result)
      || any (member medium_risk_flags) (r.flags result)

  pub route_of : Option Anomaly → Route
  route_of none = normal
  route_of (some result) =
      if is_high_confidence_fraud result
      then high_risk
      else if is_suspicious result
      then suspicious
      else normal

  pub route_after_anomaly : State → Route
  route_after_anomaly state = route_of (r.anomaly_result state)

  pub enrich_of : Option Anomaly → Bool
  enrich_of none = true
  enrich_of (some result) =
      if is_high_confidence_fraud result
      then false
      else not (fl.lt (r.confidence_score result) (fl.lit 2 10) && is_empty (r.flags result))

  pub should_enrich_context : State → Bool
  should_enrich_context state = enrich_of (r.anomaly_result state)

  -- `context and context.sanctions_hit`
  abbrev pub hit : Option Context → Bool
  hit none = false
  hit (some context) = r.sanctions_hit context

  -- `anomaly_result and anomaly_result.confidence_score >= x`
  abbrev pub at_least : Option Anomaly → F → Bool
  at_least none x = false
  at_least (some result) x = fl.le x (r.confidence_score result)

  -- `not anomaly_result or anomaly_result.confidence_score < x`
  abbrev pub below : Option Anomaly → F → Bool
  below none x = true
  below (some result) x = fl.lt (r.confidence_score result) x

  abbrev pub has_flag : Option Anomaly → List String → Bool
  has_flag none names = false
  has_flag (some result) names = any (member (r.flags result)) names

  abbrev pub has_flags : Option Anomaly → Bool
  has_flags none = false
  has_flags (some result) = not (is_empty (r.flags result))

  abbrev pub high_value : Option Context → Bool
  high_value none = false
  high_value (some context) = elim (r.user_profile context) [
    | none ↦ false
    | some profile ↦ r.is_high_value_client profile
  ]

  pub path_of : Option Anomaly → Option Context → DecisionPath
  path_of result context =
      if hit context
      then auto_block
      else if at_least result (fl.lit 95 100) && has_flag result block_flags
      then auto_block
      else if below result (fl.lit 3 10) && not (hit context)
      then auto_allow
      else if high_value context
      then human_review
      else llm_review

  pub determine_decision_path : State → DecisionPath
  determine_decision_path state = path_of (r.anomaly_result state) (r.context_bundle state)

  pub priority_of : Option Anomaly → Option Context → ℕ
  priority_of result context =
      if hit context
      then 1
      else if at_least result (fl.lit 9 10)
      then 2
      else if at_least result (fl.lit 5 10)
      then 3
      else if has_flags result
      then 4
      else 5

  pub get_priority_level : State → ℕ
  get_priority_level state = priority_of (r.anomaly_result state) (r.context_bundle state)
