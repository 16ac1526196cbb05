-- ===== src/Examples/Evaluation.antt =====
-- The theorems on the orchestrator at a concrete event, with an LLM that is down.
use aero_risk_ai.Base.{ℕ, ◌≡◌, refl, str_eq, if◌then◌else◌}
use aero_risk_ai.Base.Outcome.{ok, err, runtime, value_error}
use aero_risk_ai.Models.Decision.{decision_value}
use aero_risk_ai.Scoring.{get_recommendation}
use aero_risk_ai.Orchestrator.Types.{Clients}
use aero_risk_ai.Orchestrator.{fallback_action}
use aero_risk_ai.Orchestrator.Verdict.{fallback_action-recommendation}
use aero_risk_ai.Orchestrator.Returns.{Works}
use aero_risk_ai.Examples.Fixed.{Fixed, units, fixed_float}
use aero_risk_ai.Examples.Decisions.{half}

abbrev clients : Clients ℕ Fixed ℕ ℕ ℕ ℕ ℕ
clients = record {
  now = λ w. (ok half, w);
  event_id = λ e. "e";
  user_id = λ e. "u";
  symbol = λ e. "ACME";
  matched_name = λ x. "name";
  match_dump = λ x. 0;
  prompt = λ e x flags base. ok "prompt";
  generate_decision = λ p w. (err (runtime "timeout"), w);
  model_name = "model";
  loads = λ t. err (value_error "no JSON");
  action_of = λ t. err (value_error t);
  level_of = λ t. err (value_error t);
  validate = λ d. ok tt;
  validate_report = λ r. ok tt;
  report_id = λ r. "r1";
  insert_incident_report = λ r w. (ok tt, w);
}

abbrev clients_work : Works clients
clients_work = record {
  now_ok = λ w. tt;
  insert_ok = λ r w. tt;
  prompt_ok = λ e x flags base. ("prompt", refl);
}

abbrev base : Fixed
-- 0.39
base = units 7_194_230_188_746_725_127

fallback_action-recommendation_example :
    decision_value (fallback_action half)
    ≡ (if str_eq (get_recommendation half) "ADJUST_LIMIT" then "ALLOW" else get_recommendation half)
fallback_action-recommendation_example = fallback_action-recommendation half
