-- ===== src/Models/Anomaly.antt =====
-- ai_guardrail/aerorisk/models/anomaly_result.py: the result of one check, and pydantic's
-- validation of its two scores.
use aero_risk_ai.Base.{
  String, ◌≡◌, Bool, true, ◌&&◌, Option, none, some, [], ◌∷◌, arith, if◌then◌else◌,
}
use aero_risk_ai.Base.Outcome.{Outcome, ok, err, validation}
use aero_risk_ai.Base.Float.{Float, InUnit}
use aero_risk_ai.Base.Value.{Value, Fields, fields, str, bool, float, dict, null}

pub data AnomalyType : Type 0 where
  velocity_violation vwap_deviation wash_trade spoofing : AnomalyType
  sanctions_match compliance_violation unusual_pattern : AnomalyType

abbrev pub type_value : AnomalyType → String
type_value velocity_violation = "velocity_violation"
type_value vwap_deviation = "vwap_deviation"
type_value wash_trade = "wash_trade"
type_value spoofing = "spoofing"
type_value sanctions_match = "sanctions_match"
type_value compliance_violation = "compliance_violation"
type_value unusual_pattern = "unusual_pattern"

pub record AnomalyResult (F : Type 0) : Type 0 where
  pub anomaly_type : AnomalyType
  pub is_anomalous : Bool
  pub severity_score : F
  pub confidence : F
  pub details : Fields F
  pub recommendation : String
  pub timestamp : Option F

module _ {F : Type 0} ⦃fl : Float F⦄ where
  -- `Field(ge=0.0, le=1.0)`
  abbrev pub in_unit : F → Bool
  in_unit x = fl.le (fl.lit 0 1) x && fl.le x (fl.lit 1 1)

  -- `AnomalyResult(...)`: construction raises a ValidationError for a score out of range.
  unfoldable pub new_result : AnomalyResult F → Outcome (AnomalyResult F)
  new_result r = if in_unit r.severity_score && in_unit r.confidence then ok r else err validation

  pub InUnit-in_unit : (x : F) → InUnit x → in_unit x ≡ true
  InUnit-in_unit x h = ground arith

  -- Scores in range pass, and the object is the one that was described.
  pub new_result-ok :
      (r : AnomalyResult F) → InUnit r.severity_score → InUnit r.confidence → new_result r ≡ ok r
  unfolding new_result
  new_result-ok r h k = ground arith

  -- Whatever was constructed has both scores in range.
  pub new_result-InUnit :
      (r s : AnomalyResult F)
      → new_result r ≡ ok s
      → (s ≡ r) × InUnit s.severity_score × InUnit s.confidence
  unfolding new_result
  new_result-InUnit r s h = ground arith

-- `model_dump()`
abbrev pub option_float : {F : Type 0} → Option F → Value F
option_float none = null
option_float (some x) = float x

unfoldable pub dump_result : {F : Type 0} → AnomalyResult F → Value F
dump_result r = dict (
    fields (
      ("anomaly_type", str (type_value r.anomaly_type))
      ∷ ("is_anomalous", bool r.is_anomalous)
      ∷ ("severity_score", float r.severity_score)
      ∷ ("confidence", float r.confidence)
      ∷ ("details", dict r.details)
      ∷ ("recommendation", str r.recommendation)
      ∷ ("timestamp", option_float r.timestamp)
      ∷ []))
