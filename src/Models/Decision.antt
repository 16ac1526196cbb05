-- ===== src/Models/Decision.antt =====
-- ai_guardrail/aerorisk/models/risk_decision.py: decisions, pydantic's validation of their scores,
-- and the two factories.
use aero_risk_ai.Base.{
  String, concat, ◌≡◌, refl, ◌⊎◌, inl, inr, Bool-cases, Bool, true, false, ◌&&◌, Option, none, some,
  List, [], ◌∷◌, arith, str_eq, if◌then◌else◌, map,
}
use aero_risk_ai.Base.Int.{ℤ}
use aero_risk_ai.Base.Outcome.{Outcome, ok, err, validation}
use aero_risk_ai.Base.Float.{Float, FloatLaws, lit-InUnit}
use aero_risk_ai.Base.Value.{Value, Fields, fields, str, bool, float, int, dict, list, null, values}
use aero_risk_ai.Models.Anomaly.{in_unit, InUnit-in_unit, option_float}

pub data RiskDecisionType : Type 0 where
  allow flag block adjust_limit : RiskDecisionType

abbrev pub decision_value : RiskDecisionType → String
decision_value allow = "ALLOW"
decision_value flag = "FLAG"
decision_value block = "BLOCK"
decision_value adjust_limit = "ADJUST_LIMIT"

pub record RiskDecision (F : Type 0) : Type 0 where
  pub decision_id : String
  pub order_id : Option String
  pub account_id : String
  pub decision : RiskDecisionType
  pub risk_score : F
  pub confidence : F
  pub reasons : List String
  pub anomaly_findings : List (Fields F)
  pub compliance_issues : List (Fields F)
  pub sanctions_match : Bool
  pub requires_human_review : Bool
  pub adjusted_limit : Option ℤ
  pub circuit_breaker_trigger : Bool
  pub incident_report_id : Option String
  pub agent_version : String
  pub model_name : Option String
  pub processing_time_ms : Option F
  pub timestamp : Option F

abbrev pub option_str : {F : Type 0} → Option String → Value F
option_str none = null
option_str (some s) = str s

abbrev pub option_int : {F : Type 0} → Option ℤ → Value F
option_int none = null
option_int (some z) = int z

-- `model_dump()`, and `to_dict()` after it: the enumeration is stored as its text already.
pub dump_decision : {F : Type 0} → RiskDecision F → Value F
dump_decision d = dict (
    fields (
      ("decision_id", str d.decision_id)
      ∷ ("order_id", option_str d.order_id)
      ∷ ("account_id", str d.account_id)
      ∷ ("decision", str (decision_value d.decision))
      ∷ ("risk_score", float d.risk_score)
      ∷ ("confidence", float d.confidence)
      ∷ ("reasons", list (values (map str d.reasons)))
      ∷ ("anomaly_findings", list (values (map dict d.anomaly_findings)))
      ∷ ("compliance_issues", list (values (map dict d.compliance_issues)))
      ∷ ("sanctions_match", bool d.sanctions_match)
      ∷ ("requires_human_review", bool d.requires_human_review)
      ∷ ("adjusted_limit", option_int d.adjusted_limit)
      ∷ ("circuit_breaker_trigger", bool d.circuit_breaker_trigger)
      ∷ ("incident_report_id", option_str d.incident_report_id)
      ∷ ("agent_version", str d.agent_version)
      ∷ ("model_name", option_str d.model_name)
      ∷ ("processing_time_ms", option_float d.processing_time_ms)
      ∷ ("timestamp", option_float d.timestamp)
      ∷ []))

-- `order_id or 'UNKNOWN'`: a missing and an empty id alike.
abbrev pub order_or_unknown : Option String → String
order_or_unknown none = "UNKNOWN"
order_or_unknown (some s) = if str_eq s "" then "UNKNOWN" else s

-- f"{prefix}{account_id}-{order_id or 'UNKNOWN'}"
abbrev pub decision_name : String → String → Option String → String
decision_name prefix account order =
    concat prefix (concat account (concat "-" (order_or_unknown order)))

module _ {F : Type 0} ⦃fl : Float F⦄ where
  -- `RiskDecision(...)`: construction raises for a score out of range.
  pub new_decision : RiskDecision F → Outcome (RiskDecision F)
  new_decision d = if in_unit d.risk_score && in_unit d.confidence then ok d else err validation

  -- The fields of a block decision.
  pub block_fields : String → Option String → String → Bool → RiskDecision F
  block_fields account order reason sanctions = record {
    decision_id = decision_name "DEC-BLOCK-" account order;
    order_id = order;
    account_id = account;
    decision = block;
    risk_score = fl.lit 1 1;
    confidence = fl.lit 99 100;
    reasons = reason ∷ [];
    anomaly_findings = [];
    compliance_issues = [];
    sanctions_match = sanctions;
    requires_human_review = sanctions;
    adjusted_limit = none;
    circuit_breaker_trigger = true;
    incident_report_id = none;
    agent_version = "v1.0.0";
    model_name = none;
    processing_time_ms = none;
    timestamp = none;
  }

  pub create_block_decision : String → Option String → String → Bool → Outcome (RiskDecision F)
  create_block_decision account order reason sanctions =
      new_decision (block_fields account order reason sanctions)

  pub allow_fields : String → Option String → F → RiskDecision F
  allow_fields account order score = record {
    decision_id = decision_name "DEC-ALLOW-" account order;
    order_id = order;
    account_id = account;
    decision = allow;
    risk_score = score;
    confidence = fl.lit 95 100;
    reasons = "No risk indicators detected" ∷ [];
    anomaly_findings = [];
    compliance_issues = [];
    sanctions_match = false;
    requires_human_review = false;
    adjusted_limit = none;
    circuit_breaker_trigger = false;
    incident_report_id = none;
    agent_version = "v1.0.0";
    model_name = none;
    processing_time_ms = none;
    timestamp = none;
  }

  pub create_allow_decision : String → Option String → F → Outcome (RiskDecision F)
  create_allow_decision account order score = new_decision (allow_fields account order score)

  module _ (laws : FloatLaws F) where
    -- A block decision is always built; it triggers the circuit breaker, and asks for a human review
    -- exactly when it stands for a sanctions match. An allow decision is built exactly for a score
    -- between 0.0 and 1.0, with that score and with no trigger, and is refused by pydantic otherwise.
    pub create_decision-verdict :
        (account : String) (order : Option String) (reason : String) (sanctions : Bool) (score : F)
        → ((b : RiskDecision F) × (create_block_decision account order reason sanctions ≡ ok b)
            × (b.decision ≡ block)
            × (b.circuit_breaker_trigger ≡ true)
            × (b.requires_human_review ≡ sanctions))
          × (((in_unit score ≡ true)
                × (a : RiskDecision F) × (create_allow_decision account order score ≡ ok a)
                × (a.decision ≡ allow)
                × (a.risk_score ≡ score)
                × (a.circuit_breaker_trigger ≡ false))
              ⊎ ((in_unit score ≡ false)
                  × (create_allow_decision account order score ≡ err validation)))
    unfolding create_block_decision create_allow_decision new_decision block_fields allow_fields
    create_decision-verdict account order reason sanctions score =
        let one_ok =
          InUnit-in_unit (fl.lit 1 1) (lit-InUnit laws 1 1 (omega arith) (omega arith)) in
        let c99 =
          InUnit-in_unit (fl.lit 99 100) (lit-InUnit laws 99 100 (omega arith) (omega arith)) in
        let c95 =
          InUnit-in_unit (fl.lit 95 100) (lit-InUnit laws 95 100 (omega arith) (omega arith)) in
        (
          (block_fields account order reason sanctions, ground arith, refl, refl, refl),
          elim (Bool-cases (in_unit score)) [
            | inl h ↦ inl (h, allow_fields account order score, ground arith, refl, refl, refl)
            | inr h ↦ inr (h, ground arith)
          ],
        )
