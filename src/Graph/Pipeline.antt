-- ===== src/Graph/Pipeline.antt =====
-- ai_guardrail/aerorisk/graph/pipeline.py. The agents that it imports, the report generator and the
-- breaker's `update_breaker` are not in the repository, so they are a record of operations; each may
-- raise, and acts on a world `W`. RiskDecision is a parameter as well, whose constructor may refuse
-- what it is given: the class of models/risk_decision.py has other fields than those named here, and
-- refuses every one of these calls. LangGraph runs the nodes along the edges, and hands each the state the last returned.
pub mod Outcomes
use aero_risk_ai.Base.{
  String, concat, ◌≡◌, Bool, true, false, ◌||◌, Option, none, some, List, [], ◌∷◌, if◌then◌else◌,
}
use aero_risk_ai.Base.Outcome
use aero_risk_ai.Base.Outcome.{
  Outcome, ok, err, Error, value_error, runtime, Gathered, returned, raised, cancelled,
}
use aero_risk_ai.Base.Exec.{Exec, pure, raise, lift, ◌>>=◌, ◌>>◌}
use aero_risk_ai.Base.Float.{Float}
use aero_risk_ai.Models.Decision.{RiskDecisionType, allow, flag, block, adjust_limit}
use aero_risk_ai.Graph.Router.{Route, high_risk, suspicious, normal}

pub record Services (W F Event Anomaly Context Rule Decision Report : Type 0) : Type 0 where
  pub analyze : Event → Exec W (Option Anomaly)
  pub flags : Anomaly → List String
  pub is_high_confidence_fraud : Anomaly → Bool
  pub gather_context : Option Event → List String → Exec W (Option Context)
  pub compliance_retrievals : Context → List Rule
  pub sanctions_hit : Context → Bool
  pub make_decision : Option Event → Option Anomaly → Option Context → Exec W (Option Decision)
  -- RiskDecision(decision_type, confidence, reason, requires_human_review, sanctions_triggered,
  -- pipeline_error)
  pub risk_decision : RiskDecisionType → F → String → Bool → Bool → Bool → Outcome Decision
  pub decision_type : Decision → RiskDecisionType
  pub requires_human_review : Decision → Bool
  pub should_update_circuit_breaker : Decision → Bool
  pub account_id : Event → String
  pub generate : Option Event → Decision → Option Context → Exec W Report
  pub update_breaker : String → Decision → Exec W Unit
  -- `str(e)`
  pub text : Error → String

-- The fields of a decision are what it was constructed with, where it was.
pub record DecisionLaws {W F Event Anomaly Context Rule Decision Report : Type 0}
    (s : Services W F Event Anomaly Context Rule Decision Report) : Type 0 where
  pub type_made :
      (k : RiskDecisionType) (c : F) (reason : String) (human sanctions error : Bool) (d : Decision)
      → s.risk_decision k c reason human sanctions error ≡ ok d
      → s.decision_type d ≡ k
  pub human_made :
      (k : RiskDecisionType) (c : F) (reason : String) (human sanctions error : Bool) (d : Decision)
      → s.risk_decision k c reason human sanctions error ≡ ok d
      → s.requires_human_review d ≡ human

pub record AgentState (Event Anomaly Context Rule Decision Report : Type 0) : Type 0 where
  pub event : Option Event
  pub anomaly_result : Option Anomaly
  pub context_bundle : Option Context
  pub risk_decision : Option Decision
  pub incident_report : Option Report
  pub anomaly_flags : List String
  pub compliance_matches : List Rule
  pub sanctions_match : Bool
  pub circuit_breaker_updated : Bool
  pub decision_bypassed_rag : Bool
  pub processing_complete : Bool
  pub errors : List String

abbrev pub is_block_or_flag : RiskDecisionType → Bool
is_block_or_flag allow = false
is_block_or_flag flag = true
is_block_or_flag block = true
is_block_or_flag adjust_limit = false

module _ {W F Event Anomaly Context Rule Decision Report : Type 0} ⦃fl : Float F⦄
    (s : Services W F Event Anomaly Context Rule Decision Report) where
  abbrev pub State : Type 0
  State = AgentState Event Anomaly Context Rule Decision Report

  pub route_of : Option Anomaly → Route
  route_of none = normal
  route_of (some result) = if s.is_high_confidence_fraud result then high_risk else suspicious

  pub route_after_anomaly : State → Route
  route_after_anomaly state = route_of state.anomaly_result

  abbrev pub flags_of : Option Anomaly → List String
  flags_of none = []
  flags_of (some result) = s.flags result

  abbrev pub rules_of : Option Context → List Rule
  rules_of none = []
  rules_of (some context) = s.compliance_retrievals context

  abbrev pub hit : Option Context → Bool
  hit none = false
  hit (some context) = s.sanctions_hit context

  pub run_anomaly_detection : State → Exec W State
  run_anomaly_detection state = elim state.event [
    | none ↦ raise (value_error "No event provided for anomaly detection")
    | some event ↦ do
      result ← s.analyze event
      pure (record state { anomaly_result = result; anomaly_flags = flags_of result })
  ]

  pub run_rag_context : State → Exec W State
  run_rag_context state = do
    context ← s.gather_context state.event (flags_of state.anomaly_result)
    pure (record state {
      context_bundle = context;
      compliance_matches = rules_of context;
      sanctions_match = hit context;
    })

  pub block_decision : Outcome Decision
  block_decision =
      s.risk_decision block (fl.lit 1 1) "OFAC Sanctions Match - Automatic Block" true true false

  pub run_decision_engine : State → Exec W State
  run_decision_engine state =
      if hit state.context_bundle
      then (do
        decision ← lift block_decision
        pure (record state { risk_decision = some decision; decision_bypassed_rag = true }))
      else (do
        decision ← s.make_decision state.event state.anomaly_result state.context_bundle
        pure (record state { risk_decision = decision }))

  abbrev pub needs_report : Decision → Bool
  needs_report decision =
      s.requires_human_review decision || is_block_or_flag (s.decision_type decision)

  pub report_on : State → Decision → Exec W (Option Report)
  report_on state decision =
      if needs_report decision
      then (do report ← s.generate state.event decision state.context_bundle; pure (some report))
      else pure none

  -- `event.account_id` of no event raises.
  pub breaker_on : Option Event → Decision → Exec W Unit
  breaker_on none decision =
      if s.should_update_circuit_breaker decision
      then raise (runtime "'NoneType' object has no attribute 'account_id'")
      else pure tt
  breaker_on (some event) decision =
      if s.should_update_circuit_breaker decision
      then s.update_breaker (s.account_id event) decision
      else pure tt

  pub finish : State → Decision → Exec W State
  finish state decision = do
    report ← report_on state decision
    breaker_on state.event decision
    pure (record state {
      incident_report = report;
      circuit_breaker_updated = s.should_update_circuit_breaker decision;
      processing_complete = true;
    })

  pub post_on : State → Option Decision → Exec W State
  post_on state none = pure state
  post_on state (some decision) = finish state decision

  pub run_post_processing : State → Exec W State
  run_post_processing state = post_on state state.risk_decision

  -- The conditional edges after the anomaly detection.
  pub follow : Route → State → Exec W State
  follow high_risk state = pure state
  follow suspicious state = run_rag_context state
  follow normal state = run_rag_context state

  -- The compiled graph, from its entry point to END.
  pub invoke : State → Exec W State
  invoke state = do
    detected ← run_anomaly_detection state
    enriched ← follow (route_after_anomaly detected) detected
    decided ← run_decision_engine enriched
    run_post_processing decided

  pub initial_state : Event → State
  initial_state event = record {
    event = some event;
    anomaly_result = none;
    context_bundle = none;
    risk_decision = none;
    incident_report = none;
    anomaly_flags = [];
    compliance_matches = [];
    sanctions_match = false;
    circuit_breaker_updated = false;
    decision_bypassed_rag = false;
    processing_complete = false;
    errors = [];
  }

  -- The state that a failure leaves: the initial one, with an ALLOW decision, where there is one.
  pub failed : String → Event → Error → Outcome State
  failed prefix event e =
      Outcome.◌>>=◌ (s.risk_decision allow (fl.lit 0 1) (concat prefix (s.text e)) true false true)
        (λ decision. ok (record (initial_state event) {
          risk_decision = some decision;
          processing_complete = true;
          errors = s.text e ∷ [];
        }))

  pub settle : Event → Outcome State → Outcome State
  settle event (ok state) = ok state
  settle event (err e) = failed "Pipeline error - fail-open: " event e

  pub process_event : Event → Exec W State
  process_event event w =
      let (result, w') = invoke (initial_state event) w in (settle event result, w')

  abbrev pub add_result :
      Gathered State → Outcome (List (Gathered State)) → Outcome (List (Gathered State))
  add_result result (ok results) = ok (result ∷ results)
  add_result result (err e) = err e

  abbrev pub add_state :
      Outcome State → Outcome (List (Gathered State)) → Outcome (List (Gathered State))
  add_state (ok state) results = add_result (returned state) results
  add_state (err e) results = err e

  -- The loop over what `asyncio.gather` returned, one result for each event, in their order. A
  -- cancelled task is no Exception, and stays among the results.
  pub collect : List Event → List (Gathered State) → Outcome (List (Gathered State))
  collect (event ∷ events) (returned state ∷ results) =
      add_result (returned state) (collect events results)
  collect (event ∷ events) (raised e ∷ results) =
      add_state (failed "Batch processing error: " event e) (collect events results)
  collect (event ∷ events) (cancelled ∷ results) = add_result cancelled (collect events results)
  collect _ _ = ok []
