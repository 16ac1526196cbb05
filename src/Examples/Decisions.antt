-- ===== src/Examples/Decisions.antt =====
-- The theorems on decisions, incident reports, contexts and scores at concrete inputs.
use aero_risk_ai.Base.{
  ℕ, ◌≤◌, String, ◌≡◌, ◌≢◌, ◌↔◌, ◌⊎◌, refl, Bool, true, false, none, some, List, [], ◌∷◌,
}
use aero_risk_ai.Base.Int.{pos}
use aero_risk_ai.Base.Outcome.{Error, ok, err}
use aero_risk_ai.Base.Float.{InUnit}
use aero_risk_ai.Base.Value.{Value, Fields, field, end, str}
use aero_risk_ai.Models.Decision.{RiskDecision, block}
use aero_risk_ai.Models.Context.{
  ContextBundle, ComplianceRule, highest_severity_rule, IsFirstMax,
  highest_severity_rule-IsFirstMax,
}
use aero_risk_ai.Models.Incident.{
  sanctions_violation, critical, high, create_from_risk_decision, compute_checksum,
  create_from_risk_decision-verdict,
}
use aero_risk_ai.Scoring.{Signals, calculate_score, get_risk_level, get_recommendation}
use aero_risk_ai.Scoring.Range.{trouble, calculate_score-verdict}
use aero_risk_ai.Scoring.Levels.{level_rank, action_rank, get_recommendation-monotone}
use aero_risk_ai.Graph.Router.{
  Reads, auto_block, auto_allow, llm_review, determine_decision_path, get_priority_level, hit,
  below, high_value,
}
use aero_risk_ai.Graph.Router.Paths.{determine_decision_path-verdict}
use aero_risk_ai.Examples.Fixed.{Fixed, fixed_float, fixed_laws}

abbrev pub half : Fixed
half = fixed_float.lit 5 10

abbrev rule : String → String → ComplianceRule Fixed
rule name severity = record {
  rule_id = name;
  title = "t";
  content = "c";
  jurisdiction = "US";
  category = "k";
  severity = severity;
  source = "s";
  similarity_score = half;
}

abbrev bundle : ContextBundle Fixed
bundle = record {
  compliance_rules = rule "r1" "LOW" ∷ rule "r2" "HIGH" ∷ rule "r3" "HIGH" ∷ [];
  news_items = [];
  user_profile = none;
  sanctions_matches = [];
  circuit_breaker_status = end;
}

highest_severity_rule-IsFirstMax_example :
    ((bundle.compliance_rules ≡ []) × (highest_severity_rule bundle ≡ none))
    ⊎ ((best : ComplianceRule Fixed) × (highest_severity_rule bundle ≡ some best)
        × IsFirstMax best bundle.compliance_rules)
highest_severity_rule-IsFirstMax_example = highest_severity_rule-IsFirstMax bundle

abbrev blocked : RiskDecision Fixed
blocked = record {
  decision_id = "d1";
  order_id = none;
  account_id = "ann";
  decision = block;
  risk_score = fixed_float.lit 9 10;
  confidence = half;
  reasons = "fast" ∷ "large" ∷ [];
  anomaly_findings = [];
  compliance_issues = [];
  sanctions_match = false;
  requires_human_review = true;
  adjusted_limit = none;
  circuit_breaker_trigger = true;
  incident_report_id = none;
  agent_version = "v1.0.0";
  model_name = none;
  processing_time_ms = none;
  timestamp = none;
}

abbrev no_digest : Value Fixed → String
no_digest v = "0"

abbrev findings : List (Fields Fixed)
findings = field "anomaly_type" (str "spoofing") end ∷ []

create_from_risk_decision-verdict_example :
    let r = create_from_risk_decision no_digest "17" half blocked findings in
    (r.checksum ≡ some (compute_checksum no_digest r))
    × ((r.incident_type ≡ sanctions_violation) ↔ (false ≡ true))
    × ((r.severity ≡ critical)
        ↔ (fixed_float.lt (fixed_float.lit 8 10) (fixed_float.lit 9 10) ≡ true))
    × ((fixed_float.lt half (fixed_float.lit 9 10) ≡ false)
        ⊎ ((r.severity ≡ critical) ⊎ (r.severity ≡ high)))
    × ((r.account_restricted ≡ true) ↔ (block ≡ block))
    × ((r.actions_taken ≡ "Circuit breaker triggered" ∷ []) ↔ (true ≡ true))
create_from_risk_decision-verdict_example =
    create_from_risk_decision-verdict no_digest "17" half blocked findings

-- An event of value 9 * 5, an account of the high tier without limits of its own, and one flag.
abbrev pub signals : Signals Fixed ℕ ℕ ℕ ℕ
signals = record {
  price = λ e. pos 9;
  quantity = λ e. pos 5;
  sanctions_match = λ c. false;
  user_profile = λ c. some 0;
  risk_tier = λ p. "HIGH";
  trading_limit = λ p key. none;
  anomaly_type = λ f. "spoofing";
  confidence = λ f. some (fixed_float.lit 5 10);
}

calculate_score-verdict_example :
    ((trouble fixed_laws signals 0 (some 0) ≡ none)
      × (score : Fixed) × (calculate_score signals 0 0 (1 ∷ []) ≡ ok score)
      × ((fixed_float.le score score ≡ false) ⊎ InUnit score))
    ⊎ ((e : Error) × (trouble fixed_laws signals 0 (some 0) ≡ some e)
        × (calculate_score signals 0 0 (1 ∷ []) ≡ err e))
calculate_score-verdict_example = calculate_score-verdict fixed_laws signals 0 0 (1 ∷ [])

get_recommendation-monotone_example :
    (level_rank (get_risk_level half) ≤ level_rank (get_risk_level (fixed_float.lit 9 10)))
    × (action_rank (get_recommendation half)
        ≤ action_rank (get_recommendation (fixed_float.lit 9 10)))
get_recommendation-monotone_example =
    get_recommendation-monotone fixed_laws half (fixed_float.lit 9 10) refl

-- A state is a confidence and whether its context is a sanctions hit.
abbrev reads : Reads Fixed (Fixed × Bool) Fixed Bool ℕ
reads = record {
  anomaly_result = λ s. some (s.0);
  context_bundle = λ s. some (s.1);
  confidence_score = λ x. x;
  flags = λ x. [];
  sanctions_hit = λ c. c;
  user_profile = λ c. none;
  is_high_value_client = λ p. false;
}

determine_decision_path-verdict_example :
    ((get_priority_level reads (half, true) ≡ 1) ↔ (hit reads (some true) ≡ true))
    × ((hit reads (some true) ≡ false) ⊎ (determine_decision_path reads (half, true) ≡ auto_block))
    × ((determine_decision_path reads (half, true) ≢ auto_allow)
        ⊎ ((hit reads (some true) ≡ false)
            × (below reads (some half) (fixed_float.lit 3 10) ≡ true)))
    × ((determine_decision_path reads (half, true) ≢ llm_review)
        ⊎ (high_value reads (some true) ≡ false))
determine_decision_path-verdict_example = determine_decision_path-verdict reads (half, true)
