-- ===== src/Orchestrator/Types.antt =====
-- ai_guardrail/aerorisk/agents/agent3_orchestrator/agent.py: the data of the orchestrator, and the
-- operations that it calls and the repository lacks.
use aero_risk_ai.Base.{String, Bool, true, false, Option, none, some, List}
use aero_risk_ai.Base.Int.{ℤ}
use aero_risk_ai.Base.Outcome.{Outcome, ok, err}
use aero_risk_ai.Base.Exec.{Exec}
use aero_risk_ai.Models.Decision.{RiskDecisionType, flag, block}

pub data RiskLevel : Type 0 where
  low medium high critical : RiskLevel

pub record LlmMetadata (F : Type 0) : Type 0 where
  pub model : String
  pub tokens_used : ℤ
  pub confidence : F

-- The fields that the calls of RiskDecision give; what a call leaves out is `none` or false.
pub record Decision (F Limits : Type 0) : Type 0 where
  pub event_id : String
  pub user_id : String
  pub action : RiskDecisionType
  pub risk_level : RiskLevel
  pub risk_score : F
  pub reason : String
  pub sanctions_triggered : Bool
  pub recommended_limits : Option Limits
  pub llm_metadata : Option (LlmMetadata F)
  pub timestamp : F
  pub incident_report_id : Option String

-- What `decision_data.get(key)` finds.
pub record Reply (F Limits : Type 0) : Type 0 where
  pub action : Option String
  pub risk_level : Option String
  pub risk_score : Option F
  pub reason : Option String
  pub recommended_limits : Option Limits
  pub tokens_used : Option ℤ
  pub confidence : Option F

pub record Report (F Dump : Type 0) : Type 0 where
  pub event_id : String
  pub user_id : String
  pub symbol : String
  pub incident_type : RiskDecisionType
  pub severity : RiskLevel
  pub description : String
  pub anomaly_details : List (String × F)
  pub sanctions_match : Option Dump
  pub risk_score : F
  pub action_taken : RiskDecisionType

pub record Clients (W F Event Context Flag Limits Dump : Type 0) : Type 0 where
  -- `datetime.now()`
  pub now : Exec W F
  pub event_id : Event → String
  pub user_id : Event → String
  pub symbol : Event → String
  -- Of `context.sanctions_match`, where there is one.
  pub matched_name : Context → String
  pub match_dump : Context → Dump
  -- DECISION_PROMPT_TEMPLATE.format of the event, the context, the flags and the base score.
  pub prompt : Event → Context → List Flag → F → Outcome String
  pub generate_decision : String → Exec W String
  pub model_name : String
  -- `json.loads` and the lookups in what it returns.
  pub loads : String → Outcome (Reply F Limits)
  pub action_of : String → Outcome RiskDecisionType
  pub level_of : String → Outcome RiskLevel
  -- Whether RiskDecision and IncidentReport accept their fields.
  pub validate : Decision F Limits → Outcome (Unit {0})
  pub validate_report : Report F Dump → Outcome (Unit {0})
  pub report_id : Report F Dump → String
  pub insert_incident_report : Report F Dump → Exec W Unit

abbrev pub or_default : {A : Type 0} → A → Option A → A
or_default a none = a
or_default a (some b) = b

abbrev pub accept_if : {A : Type 0} → A → Outcome (Unit {0}) → Outcome A
accept_if a (ok u) = ok a
accept_if a (err e) = err e

abbrev pub is_block : RiskDecisionType → Bool
is_block block = true
is_block _ = false

abbrev pub is_block_or_flag : RiskDecisionType → Bool
is_block_or_flag block = true
is_block_or_flag flag = true
is_block_or_flag _ = false
