-- ===== src/Models/Incident.antt =====
-- ai_guardrail/aerorisk/models/incident_report.py. What `json.dumps` and `hashlib.sha256` make of a
-- dictionary, and the decimal text of the time, are arguments.
use aero_risk_ai.Base.{
  ℕ, String, concat, ◌≡◌, refl, ◌↔◌, ◌⊎◌, Bool, true, false, ◌||◌, Option, none, some, List, [],
  ◌∷◌, arith, str_eq, if◌then◌else◌, map,
}
use aero_risk_ai.Base.Lists.{any}
use aero_risk_ai.Base.Float.{Float}
use aero_risk_ai.Base.Value.{Value, Fields, fields, field, end, str, float, dict, list, values}
use aero_risk_ai.Models.Decision.{RiskDecision, RiskDecisionType, block, dump_decision}

pub data IncidentSeverity : Type 0 where
  low medium high critical : IncidentSeverity

pub data IncidentStatus : Type 0 where
  opened under_review resolved escalated : IncidentStatus

pub data IncidentType : Type 0 where
  fraud_suspected sanctions_violation market_manipulation compliance_breach : IncidentType
  velocity_violation wash_trade spoofing : IncidentType

abbrev pub type_value : IncidentType → String
type_value fraud_suspected = "FRAUD_SUSPECTED"
type_value sanctions_violation = "SANCTIONS_VIOLATION"
type_value market_manipulation = "MARKET_MANIPULATION"
type_value compliance_breach = "COMPLIANCE_BREACH"
type_value velocity_violation = "VELOCITY_VIOLATION"
type_value wash_trade = "WASH_TRADE"
type_value spoofing = "SPOOFING"

pub record IncidentReport (F : Type 0) : Type 0 where
  pub incident_id : String
  pub incident_type : IncidentType
  pub severity : IncidentSeverity
  pub status : IncidentStatus
  pub account_id : String
  pub order_id : Option String
  pub trade_ids : List String
  pub detected_at : F
  pub reported_at : Option F
  pub resolved_at : Option F
  pub description : String
  pub evidence : Value F
  pub anomaly_findings : List (Fields F)
  pub compliance_violations : List String
  pub actions_taken : List String
  pub circuit_breaker_triggered : Bool
  pub account_restricted : Bool
  pub assigned_to : Option String
  pub reviewer_comments : Option String
  pub checksum : Option String
  pub version : ℕ

-- `f.get("anomaly_type") == kind`
abbrev pub is_text : {F : Type 0} → String → Value F → Bool
is_text kind (str s) = str_eq s kind
is_text kind _ = false

pub has_type : {F : Type 0} → String → Fields F → Bool
has_type kind end = false
has_type kind (field k v rest) =
    let later = has_type kind rest in if str_eq k "anomaly_type" then is_text kind v else later

module _ {F : Type 0} where
  pub incident_type_of : Bool → List (Fields F) → IncidentType
  incident_type_of sanctions findings =
      if sanctions
      then sanctions_violation
      else if any (has_type "wash_trade") findings
      then wash_trade
      else if any (has_type "spoofing") findings
      then spoofing
      else fraud_suspected

  -- The dictionary under the checksum.
  pub checksum_data : IncidentReport F → Value F
  checksum_data r = dict (
      fields (
        ("incident_id", str r.incident_id)
        ∷ ("incident_type", str (type_value r.incident_type))
        ∷ ("account_id", str r.account_id)
        ∷ ("detected_at", float r.detected_at)
        ∷ ("evidence", r.evidence)
        ∷ ("actions_taken", list (values (map str r.actions_taken)))
        ∷ []))

  -- `digest` stands for sha256 of the JSON text with sorted keys.
  pub compute_checksum : (digest : Value F → String) → IncidentReport F → String
  compute_checksum digest r = digest (checksum_data r)

  pub finalize : (digest : Value F → String) → IncidentReport F → IncidentReport F
  finalize digest r = record r { checksum = some (compute_checksum digest r) }

-- `', '.join(...)`
pub join : List String → String
join [] = ""
join (s ∷ []) = s
join (s ∷ t ∷ ss) = concat s (concat ", " (join (t ∷ ss)))

abbrev pub is_block : RiskDecisionType → Bool
is_block block = true
is_block _ = false

module _ {F : Type 0} ⦃fl : Float F⦄ where
  pub severity_of : Bool → F → IncidentSeverity
  severity_of sanctions score =
      if sanctions || fl.lt (fl.lit 8 10) score
      then critical
      else if fl.lt (fl.lit 5 10) score
      then high
      else medium

  -- `seconds` is the text of `int(time.time())`, and `now` the time of the report.
  pub create_from_risk_decision :
      (digest : Value F → String) (seconds : String) (now : F)
      → RiskDecision F
      → List (Fields F)
      → IncidentReport F
  create_from_risk_decision digest seconds now d findings = finalize digest (record {
    incident_id = concat "INC-" (concat d.account_id (concat "-" seconds));
    incident_type = incident_type_of d.sanctions_match findings;
    severity = severity_of d.sanctions_match d.risk_score;
    status = opened;
    account_id = d.account_id;
    order_id = d.order_id;
    trade_ids = [];
    detected_at = now;
    reported_at = none;
    resolved_at = none;
    description = concat "Automated detection: " (join d.reasons);
    evidence = dump_decision d;
    anomaly_findings = findings;
    compliance_violations = [];
    actions_taken = if d.circuit_breaker_trigger then "Circuit breaker triggered" ∷ [] else [];
    circuit_breaker_triggered = d.circuit_breaker_trigger;
    account_restricted = is_block d.decision;
    assigned_to = none;
    reviewer_comments = none;
    checksum = none;
    version = 1;
  })

  -- A report of a decision carries a checksum that a later recomputation confirms. It is a sanctions
  -- violation exactly when the decision is a sanctions match, and critical exactly when it is one or
  -- its score is beyond 0.8; a score beyond 0.5 is never less than high. The account is restricted
  -- exactly when the decision blocks, and the trigger of the circuit breaker is noted as an action.
  pub create_from_risk_decision-verdict :
      (digest : Value F → String) (seconds : String) (now : F) (d : RiskDecision F)
      (findings : List (Fields F))
      → let r = create_from_risk_decision digest seconds now d findings in
        (r.checksum ≡ some (compute_checksum digest r))
        × ((r.incident_type ≡ sanctions_violation) ↔ (d.sanctions_match ≡ true))
        × ((r.severity ≡ critical)
            ↔ ((d.sanctions_match || fl.lt (fl.lit 8 10) d.risk_score) ≡ true))
        × ((fl.lt (fl.lit 5 10) d.risk_score ≡ false)
            ⊎ ((r.severity ≡ critical) ⊎ (r.severity ≡ high)))
        × ((r.account_restricted ≡ true) ↔ (d.decision ≡ block))
        × ((r.actions_taken ≡ "Circuit breaker triggered" ∷ [])
            ↔ (d.circuit_breaker_trigger ≡ true))
  unfolding create_from_risk_decision finalize compute_checksum checksum_data incident_type_of
      severity_of
  create_from_risk_decision-verdict digest seconds now d findings =
      (refl, ground arith, ground arith, ground arith, ground arith, ground arith)
