-- ===== src/Graph/State.antt =====
-- ai_guardrail/aerorisk/graph/state.py: the typed dictionary of the pipeline, and its initial value.
use aero_risk_ai.Base.{String, Bool, false, Option, none, List, []}
use aero_risk_ai.Base.Float.{Float}
use aero_risk_ai.Base.Value.{Fields, end}
use aero_risk_ai.Models.Event.{OrderEvent}
use aero_risk_ai.Models.Anomaly.{AnomalyResult}
use aero_risk_ai.Models.Context.{ContextBundle}
use aero_risk_ai.Models.Decision.{RiskDecision}

pub record PipelineState (F : Type 0) : Type 0 where
  pub event : OrderEvent F
  pub anomaly_results : List (AnomalyResult F)
  pub anomaly_detected : Bool
  pub max_anomaly_severity : F
  pub anomaly_types : List String
  pub anomaly_details : Fields F
  pub context_bundle : Option (ContextBundle F)
  pub compliance_findings : List (Fields F)
  pub sanctions_check_result : Fields F
  pub risk_decision : Option (RiskDecision F)
  pub decision_rationale : String
  pub incident_report_id : Option String
  pub processing_start_time : F
  pub processing_end_time : Option F
  pub total_processing_time_ms : Option F
  pub errors : List String

-- `now` is `time.time()`.
pub create_initial_state : {F : Type 0} ⦃fl : Float F⦄ → OrderEvent F → F → PipelineState F
create_initial_state ⦃fl⦄ event now = record {
  event = event;
  anomaly_results = [];
  anomaly_detected = false;
  max_anomaly_severity = fl.lit 0 1;
  anomaly_types = [];
  anomaly_details = end;
  context_bundle = none;
  compliance_findings = [];
  sanctions_check_result = end;
  risk_decision = none;
  decision_rationale = "";
  incident_report_id = none;
  processing_start_time = now;
  processing_end_time = none;
  total_processing_time_ms = none;
  errors = [];
}
