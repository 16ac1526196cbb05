-- ===== src/Orchestrator.antt =====
-- ai_guardrail/aerorisk/agents/agent3_orchestrator/agent.py. The LLM, the database, the prompt and
-- JSON, and the classes DecisionAction, RiskLevel, RiskDecision and IncidentReport as this file
-- calls them are not in the repository: they are a record of operations on a state `W`. The risk
-- scorer and the circuit breaker are those of this library, the latter on the state `R` of Redis.
pub mod Types
pub mod Quiet
pub mod Verdict
pub mod Returns
use aero_risk_ai.Base.{
  String, concat, Bool, true, false, Option, none, some, List, [], ◌∷◌, if◌then◌else◌,
}
use aero_risk_ai.Base.Int.{ℤ, pos}
use aero_risk_ai.Base.Outcome.{Outcome, ok, err, runtime, Gathered, returned, raised, cancelled}
use aero_risk_ai.Base.Exec.{Exec, pure, lift, or_else, outside, inside, ◌>>=◌, ◌>>◌}
use aero_risk_ai.Base.Float.{Float}
use aero_risk_ai.Models.Decision.{RiskDecisionType, allow, flag, block, adjust_limit}
use aero_risk_ai.Scoring.{Signals, calculate_score}
use aero_risk_ai.Breaker.{Redis, increment_trigger_count}
use aero_risk_ai.Orchestrator.Types.{
  Clients, Decision, LlmMetadata, Reply, Report, RiskLevel, accept_if, critical, high, is_block,
  is_block_or_flag, low, medium, or_default,
}

module _ {F : Type 0} ⦃fl : Float F⦄ where
  pub fallback_action : F → RiskDecisionType
  fallback_action score =
      if fl.le (fl.lit 8 10) score then block else if fl.le (fl.lit 5 10) score then flag else allow

  pub fallback_level : F → RiskLevel
  fallback_level score =
      if fl.le (fl.lit 8 10) score then high else if fl.le (fl.lit 5 10) score then medium else low

module _ {W R F Event Context Profile Flag Limits Dump : Type 0} ⦃fl : Float F⦄
    (c : Clients W F Event Context Flag Limits Dump) (s : Signals F Event Context Profile Flag)
    (redis : Redis R) where
  abbrev pub World : Type 0
  World = W × R

  pub construct : Decision F Limits → Exec World (Decision F Limits)
  construct decision = lift (c.validate decision) >> pure decision

  pub sanctions_decision : Event → Context → Exec World (Decision F Limits)
  sanctions_decision event context = do
    time ← outside c.now
    construct (record {
      event_id = c.event_id event;
      user_id = c.user_id event;
      action = block;
      risk_level = critical;
      risk_score = fl.lit 1 1;
      reason = concat "Sanctions match: " (c.matched_name context);
      sanctions_triggered = true;
      recommended_limits = none;
      llm_metadata = none;
      timestamp = time;
      incident_report_id = none;
    })

  pub fallback_decision : Event → F → Exec World (Decision F Limits)
  fallback_decision event score = do
    time ← outside c.now
    construct (record {
      event_id = c.event_id event;
      user_id = c.user_id event;
      action = fallback_action score;
      risk_level = fallback_level score;
      risk_score = score;
      reason = "Fallback rule-based decision (LLM unavailable)";
      sanctions_triggered = false;
      recommended_limits = none;
      llm_metadata = none;
      timestamp = time;
      incident_report_id = none;
    })

  -- The body of the `try`.
  pub llm_decision : Event → String → F → Exec World (Decision F Limits)
  llm_decision event prompt base = do
    response ← outside (c.generate_decision prompt)
    reply ← lift (c.loads response)
    kind ← lift (c.action_of (or_default "ALLOW" reply.action))
    level ← lift (c.level_of (or_default "MEDIUM" reply.risk_level))
    time ← outside c.now
    construct (record {
      event_id = c.event_id event;
      user_id = c.user_id event;
      action = kind;
      risk_level = level;
      risk_score = or_default base reply.risk_score;
      reason = or_default "LLM evaluation completed" reply.reason;
      sanctions_triggered = false;
      recommended_limits = reply.recommended_limits;
      llm_metadata = some (record {
        model = c.model_name;
        tokens_used = or_default (pos 0) reply.tokens_used;
        confidence = or_default (fl.lit 8 10) reply.confidence;
      });
      timestamp = time;
      incident_report_id = none;
    })

  -- A flag without a confidence raises AttributeError.
  unfoldable pub details_of : List Flag → Outcome (List (String × F))
  details_of [] = ok []
  details_of (finding ∷ flags) =
      let rest = details_of flags in
      elim (s.confidence finding) [
        | none ↦ err (runtime "no attribute 'confidence'")
        | some x ↦ elim rest [ ok l ↦ ok ((s.anomaly_type finding, x) ∷ l) | err e ↦ err e ]
      ]

  pub report_of : Event → Context → Decision F Limits → List (String × F) → Report F Dump
  report_of event context decision details = record {
    event_id = c.event_id event;
    user_id = c.user_id event;
    symbol = c.symbol event;
    incident_type = decision.action;
    severity = decision.risk_level;
    description = decision.reason;
    anomaly_details = details;
    sanctions_match = if s.sanctions_match context then some (c.match_dump context) else none;
    risk_score = decision.risk_score;
    action_taken = decision.action;
  }

  -- IncidentReport(...), which may refuse its fields.
  pub accepted : Report F Dump → Outcome (Report F Dump)
  accepted report = accept_if report (c.validate_report report)

  abbrev pub report_with :
      Event → Context → Decision F Limits → Outcome (List (String × F)) → Outcome (Report F Dump)
  report_with event context decision (err e) = err e
  report_with event context decision (ok details) =
      accepted (report_of event context decision details)

  pub generate_incident_report :
      Event → Context → List Flag → Decision F Limits → Outcome (Report F Dump)
  generate_incident_report event context flags decision =
      report_with event context decision (details_of flags)

  pub report_on : Event → Context → List Flag → Decision F Limits → Exec World (Decision F Limits)
  report_on event context flags decision =
      if is_block_or_flag decision.action
      then (do
        report ← lift (generate_incident_report event context flags decision)
        outside (c.insert_incident_report report)
        pure (record decision { incident_report_id = some (c.report_id report) }))
      else pure decision

  pub trigger_on : Event → Decision F Limits → Exec World (Decision F Limits)
  trigger_on event decision =
      if is_block decision.action
      then inside (increment_trigger_count redis (c.symbol event)) >> pure decision
      else pure decision

  pub act_on : Event → Context → List Flag → Decision F Limits → Exec World (Decision F Limits)
  act_on event context flags decision = report_on event context flags decision >>= trigger_on event

  pub judge : Event → Context → List Flag → Exec World (Decision F Limits)
  judge event context flags = do
    base ← lift (calculate_score s event context flags)
    prompt ← lift (c.prompt event context flags base)
    decision ← or_else (llm_decision event prompt base) (fallback_decision event base)
    act_on event context flags decision

  pub evaluate : Event → Context → List Flag → Exec World (Decision F Limits)
  evaluate event context flags =
      if s.sanctions_match context
      then sanctions_decision event context
      else judge event context flags

  -- The loop over what `asyncio.gather` returned, one result for each item, in their order. An
  -- exception becomes a fallback; a CancelledError is no Exception, and stands in the list as it is.
  pub collect :
      List (Event × Context × List Flag)
      → List (Gathered (Decision F Limits))
      → Exec World (List (Gathered (Decision F Limits)))
  collect (item ∷ items) (returned decision ∷ results) = do
    decisions ← collect items results
    pure (returned decision ∷ decisions)
  collect (item ∷ items) (raised e ∷ results) = do
    decision ← fallback_decision (item.0) (fl.lit 5 10)
    decisions ← collect items results
    pure (returned decision ∷ decisions)
  collect (item ∷ items) (cancelled ∷ results) = do
    decisions ← collect items results
    pure (cancelled ∷ decisions)
  collect _ _ = pure []
